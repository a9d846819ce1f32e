-- ===== src/Learning/Runs.antt =====
-- Concrete runs of learning.py: the taxonomy of a failure, and the approval of a skill.
use text.Mathlib.TextEquality.{eq_iff}
use causal_continuity_engine.Core.{is_public_identifier}
use causal_continuity_engine.Prelude.{
  ◌≤◌, String, true, false, [], ◌∷◌, none, some, ok, ◌≡◌, ◌==◌, string_eq, refl, arith, inl, inr,
  Bool-cases, ==_sound, subst,
}
use causal_continuity_engine.Ontology.{Status, status_eq, status_beq}
use causal_continuity_engine.Graph.Rows.{NodeRow, Tables}
use causal_continuity_engine.Graph.Table.{current_row, close_current, live}
use causal_continuity_engine.Graph.Nodes.{
  current_node, require_event_scope, get, put_node, check_write, written, write_row, node_row,
  is_malformed_write,
}
use causal_continuity_engine.Graph.Nodes.Versions.{IsVersioned, live_nodes}
use causal_continuity_engine.Graph.Nodes.Runs.{host}
use causal_continuity_engine.Graph.Traverse.Runs.{node}
use causal_continuity_engine.Invalidation.Runs.{value}
use causal_continuity_engine.Invalidation.Settle.Stored.{is_one_of}
use causal_continuity_engine.Memory.Runs.{keeper}
use causal_continuity_engine.Learning.{Library, failure_rules, first_rule, approve}
use causal_continuity_engine.Learning.Approval.{approve_gated}

-- the second rule has the first needle in the text
classified : first_rule (λ needle. needle == "test fail") failure_rules ≡ "verification"
unfolding first_rule
classified = refl

abbrev library : Library host
library = record {
  mentions = λ text needle. false;
  kind = λ facts. none;
  fidelity = λ facts. none;
  replayed = λ outcome diff fidelity at. [];
  diagnosed = λ failure taxonomy at. [];
  proposed_as = λ proposal at. [];
  approved_by = λ actor. actor ∷ [];
}

abbrev skill : NodeRow host
skill = record (node "a") { entity_type = "skill"; status = some Status.proposed }

abbrev skills : Tables host
skills = record { nodes = skill ∷ node "b" ∷ []; edges = []; events = [] }

skills-IsVersioned : IsVersioned host skills.nodes
unfolding live current_row
skills-IsVersioned = record {
  sole = λ id. elim (Bool-cases ("a" == id)) [
    | inl here ↦
        subst (λ (k : String). live_nodes host k skills.nodes ≤ 1) (==_sound "a" id here)
          (omega arith)
    | inr other ↦ ground (arith, other)
  ];
  topped = λ r i. elim i [
    | inl a ↦ rw a (skill, refl, omega arith, refl, refl, refl)
    | inr (inl b) ↦ rw b (node "b", refl, omega arith, refl, refl, refl)
    | inr (inr nowhere) ↦ absurd nowhere
  ];
}

abbrev approved : NodeRow host × Tables host
approved = value (skill, skills) (approve host keeper library 20 "a" "ann" true skills)

approves : approve host keeper library 20 "a" "ann" true skills ≡ ok approved
unfolding approve is_public_identifier get current_row put_node check_write written write_row
    node_row is_malformed_write require_event_scope close_current status_beq
approves = refl

approve_gated_example :
    (true ≡ true)
    × ((row : NodeRow host) × (get host "a" keeper.tenant_id none (some "skill") skills ≡ ok row)
        × (is_one_of (Status.proposed ∷ []) row.status ≡ true))
    × (current_node host "b" approved.1.nodes ≡ current_node host "b" skills.nodes)
approve_gated_example =
    approve_gated host keeper library 20 "a" "ann" "b" true skills approved.1 approved.0
      skills-IsVersioned (λ e. absurd (ground (arith, e, eq_iff "b" "a"))) approves
