-- ===== src/Invalidation/Settle/Runs.antt =====
-- Concrete runs of the confirming and the resolving of an invalidation, in invalidation.py.
use text.Mathlib.TextEquality.{eq_iff}
use causal_continuity_engine.Core.{is_public_identifier}
use causal_continuity_engine.Prelude.{
  ◌≤◌, String, true, false, List, [], ◌∷◌, Option, none, some, inl, inr, ok, ◌≡◌, refl, arith,
  Bool-cases, ==_sound, subst, ◌==◌, string_eq,
}
use causal_continuity_engine.Ontology.{status_beq, Status}
use causal_continuity_engine.Graph.Rows.{NodeRow, Tables}
use causal_continuity_engine.Graph.Table.{current_row, close_current, live}
use causal_continuity_engine.Graph.Nodes.{
  current_node, require_event_scope, get, put_node, check_write, written, write_row, node_row,
  is_malformed_write,
}
use causal_continuity_engine.Graph.Nodes.Versions.{IsVersioned, live_nodes}
use causal_continuity_engine.Graph.Nodes.Runs.{host}
use causal_continuity_engine.Graph.Reads.{current}
use causal_continuity_engine.Graph.Edges.{reference_scope}
use causal_continuity_engine.Graph.Adjacent.{edges_for}
use causal_continuity_engine.Graph.Traverse.Runs.{node, edge}
use causal_continuity_engine.Invalidation.Runs.{engine, names, value, receipt}
use causal_continuity_engine.Invalidation.Settle.Stored.{Mode, Stored, Desk}
use causal_continuity_engine.Invalidation.Settle.Preflight.{
  preflight, check_references, resolve_entries, is_bad_path, is_distinct,
}
use causal_continuity_engine.Invalidation.Settle.Holds.{
  nodes_held_by_others, held_by_all, release_unheld, release_all, restore_node,
}
use causal_continuity_engine.Invalidation.Settle.Confirm.{
  settle_confirmation, confirm_locked, confirm,
}
use causal_continuity_engine.Invalidation.Settle.Resolve.{
  Settlement, resolution_inputs, link_replacement, settle_free, settle_held, settle_target,
  settle_all, write_resolution, resolve_read, resolve,
}
use causal_continuity_engine.Invalidation.Settle.Keeps.{node_status}
use causal_continuity_engine.Invalidation.Settle.Others.{IsHolder, resolve_keeps}
use causal_continuity_engine.Invalidation.Settle.Rejected.{refusal_spares}

-- the data of an invalidation that affects nothing, which names its target
abbrev stored : List String → Option Stored
stored [] = none
stored (id ∷ rest) =
    some (record { target_node_id = id; target_transition = receipt id; affected = [] })

abbrev target_of : List String → Option String
target_of [] = none
target_of (id ∷ rest) = some id

abbrev pub desk : Desk host
desk = record {
  stored = stored;
  target_of = target_of;
  entries = λ facts. [];
  severity = λ facts. none;
  text_at = λ field facts. none;
  is_withdrawn = λ facts. false;
  is_empty_scope = λ scope. scope == "";
  confirmation = λ actor at accept affected transition refused. [];
  narrowing = λ scope reopen. [];
  resolution = λ r. [];
  may_mandate = λ r. true;
}

-- an invalidation of "a"
abbrev pub notice : String → Status → NodeRow host
notice id status = record (node id) {
  entity_type = "invalidation";
  status = some status;
  facts = "a" ∷ [];
}

-- two invalidations of "a", the second of which is open
abbrev noticed : Status → Tables host
noticed status = record {
  nodes = notice "inv_1" status ∷ notice "inv_2" Status.opened ∷ node "a" ∷ [];
  edges = record (edge "e1" "inv_1" "a") { edge_type = "invalidates" } ∷ [];
  events = [];
}

-- the scope of "a" is narrowed
abbrev settlement : Settlement host engine desk names 20
settlement = record {
  mode = Mode.narrowed_scope;
  actor = "ann";
  replacement_node_id = none;
  narrowed = some "src";
  note = "";
  event_id = none;
}

abbrev resolved : NodeRow host × Tables host
resolved =
    value (node "a", noticed Status.opened)
      (resolve host engine desk names 20 "inv_1" settlement (noticed Status.opened))

abbrev refused : NodeRow host × Tables host
refused =
    value (node "a", noticed Status.pending_confirmation)
      (confirm host engine desk 20 "inv_1" "ann" false none (noticed Status.pending_confirmation))

resolves :
    resolve host engine desk names 20 "inv_1" settlement (noticed Status.opened) ≡ ok resolved
unfolding resolve resolve_read preflight check_references resolve_entries is_bad_path is_distinct
    resolution_inputs nodes_held_by_others held_by_all link_replacement settle_free settle_held
    settle_target settle_all write_resolution restore_node is_public_identifier get current
    current_row edges_for reference_scope put_node check_write written write_row node_row
    is_malformed_write require_event_scope close_current status_beq
resolves = refl

refuses :
    confirm host engine desk 20 "inv_1" "ann" false none (noticed Status.pending_confirmation)
    ≡ ok refused
unfolding confirm confirm_locked settle_confirmation preflight check_references resolve_entries
    is_bad_path is_distinct nodes_held_by_others held_by_all release_unheld release_all restore_node
    is_public_identifier get current current_row edges_for reference_scope put_node check_write
    written write_row node_row is_malformed_write require_event_scope close_current status_beq
refuses = refl

noticed-IsVersioned : (status : Status) → IsVersioned host (noticed status).nodes
unfolding live current_row
noticed-IsVersioned status = record {
  sole = λ id. elim (Bool-cases ("a" == id)) [
    | inl here ↦
        subst (λ (k : String). live_nodes host k (noticed status).nodes ≤ 1) (==_sound "a" id here)
          (omega arith)
    | inr other ↦ elim (Bool-cases ("inv_1" == id)) [
      | inl here ↦
          subst (λ (k : String). live_nodes host k (noticed status).nodes ≤ 1)
            (==_sound "inv_1" id here) (omega arith)
      | inr another ↦ ground (arith, other, another)
    ]
  ];
  topped = λ r i. elim i [
    | inl first ↦ rw first (notice "inv_1" status, refl, omega arith, refl, refl, refl)
    | inr (inl second) ↦
        rw second (notice "inv_2" Status.opened, refl, omega arith, refl, refl, refl)
    | inr (inr (inl a)) ↦ rw a (node "a", refl, omega arith, refl, refl, refl)
    | inr (inr (inr nowhere)) ↦ absurd nowhere
  ];
}

-- the second invalidation holds "a"
second_holds :
    IsHolder host engine desk 20
      (notice "inv_1" Status.opened)
      (notice "inv_2" Status.opened)
      (noticed Status.opened)
      "a"
second_holds = record {
  stored = inr (inl refl);
  latest = refl;
  kind = refl;
  status = refl;
  project = refl;
  tenant = refl;
  another = λ e. absurd (ground (arith, e, eq_iff "inv_2" "inv_1"));
  holds = refl;
}

reads_first :
    get host "inv_1" engine.tenant_id none none (noticed Status.opened)
    ≡ ok (notice "inv_1" Status.opened)
unfolding get is_public_identifier current_row
reads_first = refl

resolve_keeps_example :
    node_status host "a" resolved.1 ≡ node_status host "a" (noticed Status.opened)
resolve_keeps_example =
    resolve_keeps host engine desk 20 names "inv_1" settlement (noticed Status.opened) resolved.1
      (notice "inv_1" Status.opened) (notice "inv_2" Status.opened) resolved.0 "a"
      (noticed-IsVersioned Status.opened) reads_first second_holds
      (λ e. absurd (ground (arith, e, eq_iff "a" "inv_1"))) resolves

refusal_spares_example :
    current_node host "a" refused.1.nodes
    ≡ current_node host "a" (noticed Status.pending_confirmation).nodes
refusal_spares_example =
    refusal_spares host engine desk 20 "inv_1" "ann" none (noticed Status.pending_confirmation)
      refused.1 refused.0 "a" (noticed-IsVersioned Status.pending_confirmation)
      (λ e. absurd (ground (arith, e, eq_iff "a" "inv_1"))) refuses
