-- ===== src/Invalidation/Runs.antt =====
-- Concrete runs of the firing of an invalidation, in invalidation.py.
use causal_continuity_engine.Invalidation.Lifecycle.{Moved, transition-Moved}
use text.Mathlib.TextEquality.{eq_iff}
use causal_continuity_engine.Invalidation.Writes.{
  transition, apply_impact, apply_status, apply_all, announce_all,
}
use causal_continuity_engine.Graph.Edges.{
  reference_scope, put_edge, existing_edge, edge_row, write_edge, is_malformed_edge,
}
use causal_continuity_engine.Graph.Adjacent.{edges_for}
use causal_continuity_engine.Graph.Table.{current_row, close_current, live}
use causal_continuity_engine.Core.{is_public_identifier}
use causal_continuity_engine.Prelude.{
  ◌≤◌, String, Bool, true, false, [], ◌∷◌, Option, none, some, In, inl, inr, Result, ok, err, ◌≡◌,
  ◌≢◌, refl, arith, ◌∙◌, Bool-cases, ==_sound, subst, ◌==◌, string_eq,
}
use causal_continuity_engine.Ontology.{Impact, status_beq, Status}
use causal_continuity_engine.Graph.Rows.{NodeRow, Tables}
use causal_continuity_engine.Graph.Nodes.{
  current_node, require_event_scope, get, put_node, check_write, written, write_row, node_row,
  is_malformed_write,
}
use causal_continuity_engine.Graph.Reads.{current}
use causal_continuity_engine.Graph.Nodes.Versions.{IsVersioned, live_nodes}
use causal_continuity_engine.Graph.Nodes.Runs.{host}
use causal_continuity_engine.Graph.Traverse.Runs.{cycle, node}
use causal_continuity_engine.Graph.Traverse.{
  Hit, dependents, traverse, visit, relax_all, relax, rounds, sort_hits, insert_hit,
}
use causal_continuity_engine.Graph.Traverse.Walks.{IsReached}
use causal_continuity_engine.Graph.Traverse.Answer.{edges_into}
use causal_continuity_engine.Invalidation.Impact.{
  classify, graded, needs_human, gated, severity_of, impact_status,
}
use causal_continuity_engine.Invalidation.Matrix.{classify_monotone, rank}
use causal_continuity_engine.Invalidation.Packet.{
  Affected, Explanation, Codec, Engine, Trigger, Names, Receipt,
}
use causal_continuity_engine.Invalidation.Assess.{
  assess, blast, classify_all, held_restore_status, held_among, held_in, check_trigger, shortest,
}
use causal_continuity_engine.Invalidation.Reached.{assess-IsReached, searched, IsOf}
use causal_continuity_engine.Invalidation.Fire.{
  fire, fire_locked, link_invalidation, apply_target, apply_changes, note_refused,
  write_invalidation, is_malformed_request,
}
use causal_continuity_engine.Invalidation.Waits.{fire_waits, fire_spreads}

abbrev codec : Codec host
codec = record {
  nothing = [];
  explained = λ e l. "explained" ∷ [];
  applied = λ l r. "applied" ∷ [];
  unapplied = λ l b. "unapplied" ∷ [];
  impact_of = λ i. [];
  receipts = λ facts. [];
}

abbrev pub engine : Engine host
engine = record {
  max_depth = 6;
  max_nodes = 500;
  tenant_id = some "tnt_a";
  codec = codec;
  is_human_text = λ s. true;
}

abbrev pub names : Names
names = record { invalidation = "inv_1"; edge = λ kind dst. kind }

-- the requirement behind "a" changed
abbrev request : Option Bool → Trigger host
request human = record {
  tenant_id = "tnt_a";
  project_id = "prj_a";
  target_node_id = "a";
  trigger_type = "changed_requirement";
  trigger_evidence_id = none;
  trigger_confidence = 9000;
  reason = "";
  event_id = none;
  actor = "cce";
  requires_human = human;
  invalidation_id = none;
}

abbrev pub value {ℓ} : {A : Type ℓ} → A → Result A → A
value a (ok b) = b
value a (err e) = a

abbrev pub receipt : String → Receipt
receipt id = record {
  node_id = id;
  prior_status = none;
  restore_status = none;
  impact_applied = false;
  applied_status = none;
}

-- "b" depends on "a" along an edge of the default weight 0.9
abbrev affected_b : Affected host
affected_b = record {
  receipt = receipt "b";
  entity_type = "decision";
  depth = 1;
  strength = 9000;
  impact = Impact.review_required;
  path = "a" ∷ "b" ∷ [];
}

abbrev explained : Bool → Explanation host
explained human = record {
  trigger_type = "changed_requirement";
  trigger_evidence_id = none;
  trigger_confidence = 9000;
  reason = "";
  target_node_id = "a";
  minimal_causal_path = "a" ∷ "b" ∷ [];
  affected_count = 1;
  truncated = false;
  severity = "medium";
  requires_human_confirmation = human;
  target_transition = receipt "a";
}

assessed :
    (human : Bool)
    → assess host engine 20 (request (some human)) cycle
      ≡ ok (node "a", affected_b ∷ [], explained human)
unfolding assess blast dependents is_public_identifier edges_for reference_scope current_row
    traverse visit relax_all relax rounds sort_hits insert_hit get classify_all classify graded
    needs_human gated severity_of held_restore_status held_among held_in current check_trigger
    shortest status_beq
assessed true = refl
assessed false = refl

abbrev fired : Bool → NodeRow host × Bool × Tables host
fired human =
    value (node "a", false, cycle) (fire host engine names 20 (request (some human)) cycle)

fire-fired :
    (human : Bool)
    → (fire host engine names 20 (request (some human)) cycle ≡ ok (fired human))
      × ((fired human).0.node_id ≡ "inv_1")
unfolding assess blast dependents is_public_identifier edges_for reference_scope current_row
    traverse visit relax_all relax rounds sort_hits insert_hit get classify_all classify graded
    needs_human gated severity_of held_restore_status held_among held_in current check_trigger
    shortest fire fire_locked is_malformed_request write_invalidation link_invalidation apply_target
    apply_changes note_refused transition apply_impact apply_status apply_all announce_all
    impact_status put_node check_write written write_row node_row is_malformed_write
    require_event_scope close_current put_edge existing_edge edge_row write_edge is_malformed_edge
    status_beq
fire-fired true = (refl, refl)
fire-fired false = (refl, refl)

assess-IsReached_example :
    ((node "a").node_id ≡ "a")
    × ((c : Affected host)
        → In c (affected_b ∷ [])
        → (h : Hit host) × IsReached host
            (searched host engine false)
            (edges_into host (searched host engine false) 20 cycle)
            "a"
            h
          × IsOf host false h c)
assess-IsReached_example =
    assess-IsReached host engine (request (some false)) 20 cycle (node "a") (affected_b ∷ [])
      (explained false) (assessed false)

pub cycle-IsVersioned : IsVersioned host cycle.nodes
unfolding live current_row
cycle-IsVersioned = record {
  sole = λ id. elim (Bool-cases ("a" == id)) [
    | inl here ↦
        subst (λ (k : String). live_nodes host k cycle.nodes ≤ 1) (==_sound "a" id here)
          (omega arith)
    | inr other ↦ ground (arith, other)
  ];
  topped = λ r i. elim i [
    | inl a ↦ rw a (node "a", refl, omega arith, refl, refl, refl)
    | inr (inl b) ↦ rw b (node "b", refl, omega arith, refl, refl, refl)
    | inr (inr nowhere) ↦ absurd nowhere
  ];
}

fire_waits_example : current_node host "b" (fired true).2.nodes ≡ current_node host "b" cycle.nodes
unfolding current_row
fire_waits_example =
    fire_waits host engine names 20 (request (some true)) cycle (fired true).2 (fired true).0
      (fired true).1 (node "a") (affected_b ∷ []) (explained true) "b" cycle-IsVersioned (λ h. refl)
      (assessed true) refl (fire-fired true).0
      (λ e. let f = e ∙ (fire-fired true).1 in absurd (ground (arith, eq_iff "b" "inv_1")))

fire_spreads_example :
    IsVersioned host (fired false).2.nodes
    × ((id : String)
        → id ≢ (fired false).0.node_id
        → id ≢ "a"
        → ((c : Affected host) → In c (affected_b ∷ []) → id ≢ c.receipt.node_id)
        → current_node host id (fired false).2.nodes ≡ current_node host id cycle.nodes)
unfolding current_row
fire_spreads_example =
    fire_spreads host engine names 20 (request (some false)) cycle (fired false).2 (fired false).0
      (fired false).1 (node "a") (affected_b ∷ []) (explained false) cycle-IsVersioned (λ h. refl)
      (assessed false) (fire-fired false).0

classify_monotone_example : rank Impact.review_required ≤ rank Impact.blocked
unfolding classify graded
classify_monotone_example =
    classify_monotone host 5000 8000 (some "high") 9000 9000 Impact.review_required Impact.blocked
      (λ bound h. ground arith) (λ bound h. h) refl refl

abbrev moved_a : Bool × Tables host
moved_a = value (false, cycle) (transition host codec 20 (node "a") Status.invalidated none cycle)

moves_a : transition host codec 20 (node "a") Status.invalidated none cycle ≡ ok (true, moved_a.1)
unfolding is_public_identifier current_row get transition put_node check_write written write_row
    node_row is_malformed_write require_event_scope close_current status_beq
moves_a = refl

transition-Moved_example : Moved host codec 20 (node "a") Status.invalidated cycle moved_a.1 true
transition-Moved_example =
    transition-Moved host codec 20 (node "a") Status.invalidated none cycle moved_a.1 true
      cycle-IsVersioned moves_a
