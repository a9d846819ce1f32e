-- ===== src/Invalidation/Impact.antt =====
-- How hard an invalidation hits, in invalidation.py: `classify`, the human gate and the severity.
use causal_continuity_engine.Prelude.{
  ℕ, leb, String, Bool, true, false, not, ◌&&◌, ◌||◌, ◌==◌, string_eq, if◌then◌else◌, List, [], ◌∷◌,
  Option, none, some, contains, any, length, filter, Result, ok, err, value_error,
}
use causal_continuity_engine.Ontology.{Status, Impact, criticality_levels}
use causal_continuity_engine.Graph.Rows.{Host, outside_unit}

-- `TRIGGER_TYPES`
abbrev pub trigger_types : List String
trigger_types =
    "changed_requirement" ∷ "superseding_decision" ∷ "contradictory_evidence"
    ∷ "stale_verifier_input" ∷ "dependency_drift" ∷ "failed_check" ∷ "environment_mismatch"
    ∷ "expired_approval" ∷ []

-- a criticality that is given and unknown
abbrev pub is_unknown_criticality : Option String → Bool
is_unknown_criticality none = false
is_unknown_criticality (some c) = not (contains criticality_levels c)

-- `criticality or "medium"`
abbrev pub criticality_or_medium : Option String → String
criticality_or_medium none = "medium"
criticality_or_medium (some c) = c

-- `crit in ("high", "critical")`
abbrev pub is_grave : Option String → Bool
is_grave none = false
is_grave (some c) = c == "high" || c == "critical"

module _ (host : Host) where
  open host use {Float, lt, tenths, hundredths}

  -- the matrix of `classify`
  unfoldable pub graded : Float → Option String → Float → Impact
  graded strength criticality confidence =
      if not (lt strength (hundredths 75)) && is_grave criticality
      then (if lt confidence (tenths 7) then Impact.review_required else Impact.blocked)
      else if not (lt strength (hundredths 45))
      then Impact.review_required
      else Impact.valid

  -- `classify`
  unfoldable pub classify : Float → Option String → Float → Result Impact
  classify strength criticality confidence =
      if outside_unit host strength
        || outside_unit host confidence
        || is_unknown_criticality criticality
      then err value_error
      else ok (graded strength criticality confidence)

  -- whether a human has to confirm: as asked, or by confidence and blast radius
  unfoldable pub needs_human : Option Bool → Float → Bool → ℕ → Option String → Bool
  needs_human (some asked) confidence truncated count criticality = asked
  needs_human none confidence truncated count criticality =
      (lt confidence (tenths 6) && (leb 10 count || truncated))
      || (is_grave criticality && lt confidence (tenths 6))

abbrev pub is_blocked : Impact → Bool
is_blocked impact = elim impact [ Impact.blocked ↦ true | other ↦ false ]

abbrev pub is_review_required : Impact → Bool
is_review_required impact = elim impact [ Impact.review_required ↦ true | other ↦ false ]

-- the conservative downgrade of an impact that awaits a human
unfoldable pub gated : Bool → Impact → Impact
gated human impact =
    if human && elim impact [ Impact.blocked ↦ true | Impact.invalidated ↦ true | other ↦ false ]
    then Impact.review_required
    else impact

-- `_severity`
unfoldable pub severity_of : Option String → List Impact → String
severity_of criticality impacts =
    let blocks = length (filter is_blocked impacts) in
    let crit = criticality_or_medium criticality in
    if crit == "critical" || leb 3 blocks
    then "critical"
    else if crit == "high" || leb 1 blocks
    then "high"
    else if any is_review_required impacts
    then "medium"
    else "low"

-- the node types that carry an impact status
abbrev pub carries_status : String → Bool
carries_status kind = contains ("assumption" ∷ "decision" ∷ "plan" ∷ "task" ∷ "action" ∷ []) kind

-- the status that `_apply_impact` gives a node of the type, if any
unfoldable pub impact_status : String → Impact → Option Status
impact_status kind impact =
    if carries_status kind
    then elim impact [
      | Impact.review_required ↦ some Status.uncertain
      | Impact.blocked ↦ some (if kind == "assumption" then Status.uncertain else Status.blocked)
      | other ↦ none
    ]
    else none
