-- ===== src/Policy/Decide.antt =====
-- `decide` of policy.py. A probability is a value of `Float`; `tenths n` is n/10.
pub mod Stricter
use causal_continuity_engine.Prelude.{
  ℕ, String, Bool, true, false, not, ◌&&◌, ◌||◌, ◌==◌, string_eq, nat_eq, ltb, leb, if◌then◌else◌,
  List, [], ◌∷◌, ◌++◌, map, Option, none, some, filter, max, Result, ok, err, value_error, ◌>>=◌,
  ◌>>◌, raise_if,
}
use causal_continuity_engine.Policy.Scope.{Scope, scope_matches}
use causal_continuity_engine.Policy.Levels.{Grant, State, Config, active_grants, effective_level}

-- The comparison of Python's floats.
pub record Floats : Type 1 where
  pub Float : Type 0
  pub lt : Float → Float → Bool
  pub tenths : ℕ → Float

pub data Reversibility : Type 0 where
  reversible compensable irreversible : Reversibility

-- the entries of `ACTION_CLASSES`
abbrev pub action_classes : List (String × ℕ)
action_classes =
    ("observe", 0)
    ∷ ("recommend", 1)
    ∷ ("compose_packet", 1)
    ∷ ("run_verifier", 2)
    ∷ ("create_local_artifact", 2)
    ∷ ("reversible_tool", 2)
    ∷ ("create_branch", 3)
    ∷ ("create_pr", 3)
    ∷ ("update_pr", 3)
    ∷ ("post_check", 3)
    ∷ ("post_comment", 3)
    ∷ ("merge", 4)
    ∷ ("deploy", 4)
    ∷ ("production_write", 4)
    ∷ ("external_irreversible", 4)
    ∷ []

find_class : String → List (String × ℕ) → Option ℕ
find_class a [] = none
find_class a ((b, n) ∷ l) = if a == b then some n else find_class a l

-- `ACTION_CLASSES.get(action_type)`, 4 for an unknown action
unfoldable pub class_level : String → ℕ
unfolding find_class
class_level action_type = elim (find_class action_type action_classes) [ none ↦ 4 | some n ↦ n ]

-- the reasons that `decide` lists
pub data Reason : Type 0 where
  prohibited guarded_disabled : Reason
  level_met level_short : (effective required : ℕ) → Reason

pub record Decision : Type 0 where
  pub allowed : Bool
  pub required_level : ℕ
  pub effective_level : ℕ
  pub applicable_grant_ids : List String
  pub reason : Reason

abbrev is_irreversible : Reversibility → Bool
is_irreversible irreversible = true
is_irreversible _ = false

-- `action_type in ("create_pr", "update_pr", "create_branch")`
unfoldable pub is_guarded : String → Bool
is_guarded a = a == "create_pr" || a == "update_pr" || a == "create_branch"

module _ (fl : Floats) where
  open fl use {Float, lt, tenths}

  -- the arguments of `decide`
  pub record Request : Type 0 where
    pub action_type : String
    pub reversibility : Reversibility
    pub evidence_quality : Float
    pub blast_radius : ℕ
    pub historical_reliability : Float
    pub action_scope : Option Scope

module _ (fl : Floats) where
  open fl use {Float, lt, tenths}

  -- the ladder that raises `required_level`, one step of it at a time
  abbrev forced : Request fl → ℕ → ℕ
  forced r n = if is_irreversible r.reversibility && ltb n 4 then 4 else n

  abbrev widened : Request fl → ℕ → ℕ
  widened r n = if leb 20 r.blast_radius && ltb n 3 then 3 else n

  abbrev evidenced : Request fl → ℕ → ℕ
  evidenced r n = if lt r.evidence_quality (tenths 4) && leb 2 n then max n 3 else n

  abbrev seasoned : Request fl → ℕ → ℕ
  seasoned r n = if lt r.historical_reliability (tenths 3) && leb 2 n then max n 3 else n

  unfoldable pub required_level : Request fl → ℕ
  required_level r = seasoned r (evidenced r (widened r (forced r (class_level r.action_type))))

  -- `_validate_probability`
  abbrev improbable : Float → Bool
  improbable p = lt p (tenths 0) || lt (tenths 10) p

  -- the last ladder of `decide`
  unfoldable pub verdict : Config → Request fl → (required effective : ℕ) → Bool × Reason
  verdict config r required effective =
      if leb 4 required
      then (false, prohibited)
      else if required == 3 && not config.guarded_pr_enabled && is_guarded r.action_type
      then (false, guarded_disabled)
      else if leb required effective
      then (true, level_met effective required)
      else (false, level_short effective required)

  -- `decide`
  unfoldable pub decide :
      (String → Option ℕ)
      → (Scope → Scope → Bool)
      → Config
      → String
      → String
      → Request fl
      → State
      → Result (Decision × State)
  decide parse_ts fnmatchcase config project_id now r s = do
    raise_if (improbable r.evidence_quality) value_error
    raise_if (improbable r.historical_reliability) value_error
    active ← active_grants parse_ts project_id now s
    effective ← effective_level parse_ts fnmatchcase config project_id now r.action_scope s
    let required = required_level r
    let answer = verdict config r required effective
    ok (
      record {
        allowed = answer.0;
        required_level = required;
        effective_level = effective;
        applicable_grant_ids =
            map (λ (g : Grant). g.grant_id)
              (filter (λ g. scope_matches fnmatchcase g.scope r.action_scope) active);
        reason = answer.1;
      },
      record s { audited = s.audited ++ "policy.decide" ∷ [] },
    )
