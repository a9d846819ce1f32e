-- ===== src/Policy/Levels.antt =====
-- Grants, downgrades and the effective level of policy.py.
pub mod Facts
pub mod Lasting
use causal_continuity_engine.Prelude.{
  ℕ, String, Bool, true, false, not, ◌&&◌, ◌||◌, ◌==◌, string_eq, ltb, leb, if◌then◌else◌, List, [],
  ◌∷◌, ◌++◌, map, Option, none, some, filter, any, min, max, Result, ok, err, value_error,
  key_error, ◌>>=◌, ◌>>◌, raise_if,
}
use causal_continuity_engine.Prelude.Text.{is_blank}
use causal_continuity_engine.Ontology.{mvp_max_autonomy}
use causal_continuity_engine.Policy.Scope.{Scope, normalise_scope, scope_matches}

-- a row of `autonomy_grants`; `level` is a number of any size
pub record Grant : Type 0 where
  pub grant_id : String
  pub project_id : String
  pub level : ℕ
  pub scope : Option Scope
  pub granted_by : String
  pub expires_at : Option String
  pub revoked : Bool

-- a row of `autonomy_downgrades`
pub record Downgrade : Type 0 where
  pub project_id : String
  pub ceiling : ℕ
  pub cleared : Bool

-- The two tables, and the actions that were audited.
pub record State : Type 0 where
  pub grants : List Grant
  pub downgrades : List Downgrade
  pub audited : List String

pub record Config : Type 0 where
  pub max_autonomy_level : ℕ
  pub guarded_pr_enabled : Bool
  pub tenant_max_level : ℕ

-- `_valid_autonomy_level`
abbrev pub valid_autonomy_level : ℕ → Bool
valid_autonomy_level level = leb level mvp_max_autonomy

-- `DOWNGRADE_TRIGGERS`
abbrev pub is_downgrade_trigger : String → Bool
is_downgrade_trigger t =
    t == "migration"
    || t == "anomalous_behavior"
    || t == "failed_proof"
    || t == "major_invalidation"
    || t == "expired_approval"
    || t == "policy_violation"

module _ (parse_ts : String → Option ℕ) where
  abbrev parses : Option String → Bool
  parses none = true
  parses (some text) = not (is_blank text) && elim (parse_ts text) [ none ↦ false | some t ↦ true ]

  -- the scope that `grant` stores, or a refusal
  abbrev accepted_scope : Option Scope → Result (Option Scope)
  accepted_scope none = ok none
  accepted_scope (some s) = elim (normalise_scope s) [
    | none ↦ err value_error
    | some n ↦ ok (some n)
  ]

  -- `grant`
  unfoldable pub grant :
      String → String → ℕ → String → Option Scope → Option String → State → Result State
  grant grant_id project_id level granted_by scope expires_at s = do
    raise_if (not (valid_autonomy_level level)) value_error
    raise_if (is_blank granted_by) value_error
    raise_if (not (parses expires_at)) value_error
    stored ← accepted_scope scope
    ok (record s {
      grants =
          s.grants
          ++ (record {
            grant_id = grant_id;
            project_id = project_id;
            level = level;
            scope = stored;
            granted_by = granted_by;
            expires_at = expires_at;
            revoked = false;
          })
            ∷ [];
      audited = s.audited ++ "policy.grant" ∷ [];
    })

  -- the row checks of `active_grants`
  abbrev well_formed : Grant → Bool
  well_formed g = valid_autonomy_level g.level && not (is_blank g.granted_by) && elim g.scope [
    | none ↦ true
    | some s ↦ elim (normalise_scope s) [ none ↦ false | some n ↦ true ]
  ]

  -- not expired at `current`; an unreadable expiry counts as expired
  abbrev unexpired : ℕ → Option String → Bool
  unexpired current none = true
  unexpired current (some text) =
      not (is_blank text) && elim (parse_ts text) [ none ↦ false | some t ↦ ltb current t ]

  abbrev is_active : String → ℕ → Grant → Bool
  is_active project_id current g =
      g.project_id == project_id && not g.revoked && well_formed g && unexpired current g.expires_at

  -- `active_grants`
  unfoldable pub active_grants : String → String → State → Result (List Grant)
  active_grants project_id now s = elim (parse_ts now) [
    | none ↦ err value_error
    | some current ↦ ok (filter (is_active project_id current) s.grants)
  ]

-- `max` of the levels, 0 for no grant
unfoldable pub max_level : List Grant → ℕ
max_level [] = 0
max_level (g ∷ gs) = max g.level (max_level gs)

-- the UPDATE of `revoke`
unfoldable pub set_revoked : String → List Grant → List Grant
set_revoked grant_id [] = []
set_revoked grant_id (g ∷ gs) =
    (if g.grant_id == grant_id then record g { revoked = true } else g) ∷ set_revoked grant_id gs

-- `revoke`
unfoldable pub revoke : String → String → State → Result State
revoke grant_id actor s = do
  raise_if (is_blank actor) value_error
  raise_if (not (any (λ g. g.grant_id == grant_id) s.grants)) key_error
  ok (record s {
    grants = set_revoked grant_id s.grants;
    audited = s.audited ++ "policy.revoke" ∷ [];
  })

-- `downgrade`
unfoldable pub downgrade : String → String → ℕ → String → State → Result State
downgrade project_id trigger ceiling actor s = do
  raise_if (not (is_downgrade_trigger trigger)) value_error
  raise_if (not (valid_autonomy_level ceiling)) value_error
  raise_if (is_blank actor) value_error
  ok (record s {
    downgrades =
        s.downgrades
        ++ (record { project_id = project_id; ceiling = ceiling; cleared = false }) ∷ [];
    audited = s.audited ++ "policy.downgrade" ∷ [];
  })

-- the UPDATE of `clear_downgrades`
unfoldable pub set_cleared : String → List Downgrade → List Downgrade
set_cleared project_id [] = []
set_cleared project_id (d ∷ ds) =
    (if d.project_id == project_id then record d { cleared = true } else d)
    ∷ set_cleared project_id ds

-- `clear_downgrades`
unfoldable pub clear_downgrades : String → String → State → Result State
clear_downgrades project_id actor s = do
  raise_if (is_blank actor) value_error
  ok (record s {
    downgrades = set_cleared project_id s.downgrades;
    audited = s.audited ++ "policy.clear_downgrades" ∷ [];
  })

-- a downgrade in force, and the ceiling that it sets: 0 for a corrupt row
abbrev pub in_force : String → Downgrade → Bool
in_force project_id d = d.project_id == project_id && not d.cleared

abbrev pub ceiling_of : Downgrade → ℕ
ceiling_of d = if valid_autonomy_level d.ceiling then d.ceiling else 0

-- the loop of `active_downgrade_ceiling` and its `min`
unfoldable pub lowest : String → List Downgrade → Option ℕ
lowest project_id [] = none
lowest project_id (d ∷ ds) =
    let rest = lowest project_id ds in
    if in_force project_id d
    then some (elim rest [ none ↦ ceiling_of d | some c ↦ min (ceiling_of d) c ])
    else rest

-- `active_downgrade_ceiling`
abbrev pub active_downgrade_ceiling : String → State → Option ℕ
active_downgrade_ceiling project_id s = lowest project_id s.downgrades

abbrev capped : Option ℕ → ℕ → ℕ
capped none level = level
capped (some c) level = min level c

-- `effective_level`
unfoldable pub effective_level :
    (String → Option ℕ)
    → (Scope → Scope → Bool)
    → Config
    → String
    → String
    → Option Scope
    → State
    → Result ℕ
effective_level parse_ts fnmatchcase config project_id now action_scope s = do
  active ← active_grants parse_ts project_id now s
  let covering = filter (λ g. scope_matches fnmatchcase g.scope action_scope) active
  let level = min (min (max_level covering) config.max_autonomy_level) config.tenant_max_level
  ok (capped (active_downgrade_ceiling project_id s) level)
