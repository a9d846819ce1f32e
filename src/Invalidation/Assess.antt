-- ===== src/Invalidation/Assess.antt =====
-- What invalidation.py's `_fire` finds out before it writes: the nodes an invalidation affects, how
-- hard, and whether a human has to confirm.
use causal_continuity_engine.Invalidation.Writes.{unless_missing}
use causal_continuity_engine.Prelude.{
  ℕ, ◌*◌, String, Bool, true, false, not, ◌||◌, ◌==◌, string_eq, if◌then◌else◌, List, [], ◌∷◌, map,
  Option, none, some, contains, length, ltb, Result, ok, err, ◌>>=◌, ◌>>◌, raise_if, value_error,
  runtime_error, traversal_budget_exceeded,
}
use causal_continuity_engine.Ontology.{Status, Impact, status_eq}
use causal_continuity_engine.Graph.Rows.{Host, NodeRow, Tables}
use causal_continuity_engine.Graph.Nodes.{get}
use causal_continuity_engine.Graph.Reads.{current}
use causal_continuity_engine.Graph.Traverse.{Bounds, Hit, dependents, default_weights}
use causal_continuity_engine.Invalidation.Impact.{
  is_unknown_criticality, classify, needs_human, gated, severity_of,
}
use causal_continuity_engine.Invalidation.Packet.{
  Receipt, Affected, Explanation, Codec, Engine, Trigger,
}

-- the shortest path, the first of its length
unfoldable pub shortest : List String → List (List String) → List String
shortest best [] = best
shortest best (path ∷ paths) =
    shortest (if ltb (length path) (length best) then path else best) paths

abbrev pub minimal_path : String → List (List String) → List String
minimal_path target [] = target ∷ []
minimal_path target (path ∷ paths) = shortest path paths

-- `type in …` and a status that is not live
abbrev pub is_trigger_evidence : String → Bool
is_trigger_evidence kind = kind == "evidence" || kind == "verification"

abbrev pub is_dead : Option Status → Bool
is_dead none = false
is_dead (some s) =
    contains (Status.quarantined ∷ Status.invalidated ∷ Status.superseded ∷ Status.rejected ∷ []) s

module _ (host : Host) where
  open host use {Time, Facts, Float, tenths}

  -- the answer of the traversal; `none` is the model's own, where the fuel runs out
  abbrev pub ended : {A : Type 0} → Option (Result A) → Result A
  ended none = err runtime_error
  ended (some r) = r

  abbrev pub bounds_of : ℕ → ℕ → Bounds host
  bounds_of max_depth max_nodes = record {
    max_depth = max_depth;
    max_nodes = max_nodes;
    weights = default_weights host;
    min_strength = tenths 0;
  }

  -- the first attempt, or the second, where the first exceeded the budget
  abbrev pub retried :
      Result (List (Hit host)) → Result (List (Hit host)) → Result (List (Hit host) × Bool)
  retried (ok hits) second = ok (hits, false)
  retried (err traversal_budget_exceeded) second = second >>= λ hits. ok (hits, true)
  retried (err other) second = err other

  -- the affected nodes, and whether the budget was exceeded: then those within two steps, within
  -- ten times the budget
  unfoldable pub blast : Engine host → String → Time → Tables host → Result (List (Hit host) × Bool)
  blast engine target now db =
      retried (ended (dependents host (bounds_of engine.max_depth engine.max_nodes) target now db))
        (ended (dependents host (bounds_of 2 (engine.max_nodes * 10)) target now db))

  -- the first receipt of the node
  unfoldable pub held_in : String → List (String × Option Status) → Option (Option Status)
  held_in id [] = none
  held_in id (r ∷ receipts) = if r.0 == id then some r.1 else held_in id receipts

  unfoldable pub held_among :
      Codec host → String → Option Status → List (NodeRow host) → Option Status
  held_among codec id status [] = status
  held_among codec id status (inv ∷ rest) =
      let later = held_among codec id status rest in
      elim (held_in id (codec.receipts inv.facts)) [ some held ↦ held | none ↦ later ]

  -- `_held_restore_status`
  unfoldable pub held_restore_status :
      Engine host → Trigger host → String → Option Status → Tables host → Result (Option Status)
  held_restore_status engine q id status db = do
    let tenant : String = elim engine.tenant_id [ some bound ↦ bound | none ↦ q.tenant_id ]
    rows ←
        current host q.project_id (some "invalidation") (some (Status.opened ∷ [])) none
          (some tenant) db
    ok (held_among engine.codec id status rows)

  abbrev pub unapplied_receipt : String → Option Status → Option Status → Receipt
  unapplied_receipt id prior restore = record {
    node_id = id;
    prior_status = prior;
    restore_status = restore;
    impact_applied = false;
    applied_status = none;
  }

  -- the entry of a dependent
  abbrev pub affected : Bool → Hit host → NodeRow host → Impact → Option Status → Affected host
  affected human dep node impact restore = record {
    receipt = unapplied_receipt dep.node_id node.status restore;
    entity_type = node.entity_type;
    depth = dep.depth;
    strength = dep.strength;
    impact = gated human impact;
    path = dep.path;
  }

  -- the loop that classifies the affected nodes; one that is not of the scope is left out
  unfoldable pub classify_all :
      Engine host
      → Trigger host
      → Bool
      → List (Hit host)
      → Tables host
      → Result (List (Affected host))
  classify_all engine q human [] db = ok []
  classify_all engine q human (dep ∷ deps) db =
      elim (get host dep.node_id (some q.tenant_id) (some q.project_id) none db) [
        | err e ↦ classify_all engine q human deps db
        | ok node ↦ do
          impact ← classify host dep.strength node.criticality q.trigger_confidence
          restore ← held_restore_status engine q dep.node_id node.status db
          rest ← classify_all engine q human deps db
          ok (affected human dep node impact restore ∷ rest)
      ]

  -- the check of the trigger evidence
  unfoldable pub check_trigger : Trigger host → Tables host → Result (Unit {0})
  check_trigger q db = elim q.trigger_evidence_id [
    | none ↦ ok tt
    | some id ↦ do
      trigger ←
          unless_missing value_error (get host id (some q.tenant_id) (some q.project_id) none db)
      raise_if (not (is_trigger_evidence trigger.entity_type)) value_error
      raise_if (is_dead trigger.status) value_error
  ]

  abbrev pub explanation :
      Trigger host
      → NodeRow host
      → List (Affected host)
      → Bool
      → Bool
      → Option Status
      → Explanation host
  explanation q target classified truncated human restore = record {
    trigger_type = q.trigger_type;
    trigger_evidence_id = q.trigger_evidence_id;
    trigger_confidence = q.trigger_confidence;
    reason = q.reason;
    target_node_id = q.target_node_id;
    minimal_causal_path =
        minimal_path q.target_node_id (map (λ (c : Affected host). c.path) classified);
    affected_count = length classified;
    truncated = truncated;
    severity = severity_of target.criticality (map (λ (c : Affected host). c.impact) classified);
    requires_human_confirmation = human;
    target_transition = unapplied_receipt q.target_node_id target.status restore;
  }

  module _ (engine : Engine host) (now : Time) where
    -- what `_fire` knows before it writes
    unfoldable pub assess :
        Trigger host → Tables host → Result (NodeRow host × List (Affected host) × Explanation host)
    assess q db = do
      target ←
          unless_missing value_error
            (get host q.target_node_id (some q.tenant_id) (some q.project_id) none db)
      raise_if (is_unknown_criticality target.criticality) value_error
      check_trigger q db
      b ← blast engine q.target_node_id now db
      let human =
          needs_human host q.requires_human q.trigger_confidence b.1 (length b.0) target.criticality
      classified ← classify_all engine q human b.0 db
      restore ← held_restore_status engine q q.target_node_id target.status db
      ok (target, classified, explanation q target classified b.1 human restore)
