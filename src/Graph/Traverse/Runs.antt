-- ===== src/Graph/Traverse/Runs.antt =====
-- Concrete runs of the edge operations and of the traversal of graph.py.
use causal_continuity_engine.Graph.Edges.Sole.{IsSole, put_edge-IsSole}
use causal_continuity_engine.Graph.Nodes.{require_event_scope}
use causal_continuity_engine.Graph.Table.{current_row, close_current, live}
use causal_continuity_engine.Core.{is_public_identifier}
use causal_continuity_engine.Prelude.{
  ◌≤◌, String, List, [], ◌∷◌, none, some, ok, ◌≡◌, ◌≢◌, refl, arith, In, inl, Bool-cases, subst,
  ==_sound, ◌==◌, string_eq, err, inr, map,
}
use causal_continuity_engine.Graph.Rows.{NodeRow, EdgeRow, Tables}
use causal_continuity_engine.Graph.Nodes.Runs.{host}
use causal_continuity_engine.Graph.Edges.{
  end_edge, write_edge, ended_row, reference_scope, EdgeWrite, put_edge, is_malformed_edge,
  existing_edge, edge_row,
}
use causal_continuity_engine.Graph.Adjacent.{edges_for, inwards}
use causal_continuity_engine.Graph.Edges.Ended.{edges_for-end_edge, live_edges}
use causal_continuity_engine.Graph.Traverse.{
  Bounds, Hit, dependents, default_weights, traverse, visit, relax_all, relax, rounds, sort_hits,
  insert_hit,
}
use causal_continuity_engine.Graph.Traverse.Ends.{dependents_ends}
use causal_continuity_engine.Graph.Traverse.Walks.{IsReached}
use causal_continuity_engine.Graph.Traverse.Answer.{dependents_sound, edges_into, hits_of}
use causal_continuity_engine.Graph.Traverse.Order.{dependents-Ordered, IsNearestFirst}

abbrev pub node : String → NodeRow host
node id = record {
  node_id = id;
  version = 1;
  entity_type = "decision";
  tenant_id = "tnt_a";
  project_id = "prj_a";
  status = none;
  criticality = none;
  authority = none;
  confidence = none;
  scope = none;
  facts = [];
  valid_from = some 10;
  valid_to = none;
  tx_from = 10;
  tx_to = none;
  event_id = none;
  extractor = none;
  extractor_version = none;
}

abbrev pub edge : String → String → String → EdgeRow host
edge id src dst = record {
  edge_id = id;
  version = 1;
  edge_type = "depends_on";
  src_id = src;
  dst_id = dst;
  tenant_id = "tnt_a";
  project_id = "prj_a";
  strength = 10000;
  facts = none;
  valid_from = some 10;
  valid_to = none;
  tx_from = 10;
  tx_to = none;
  event_id = none;
}

-- two nodes that depend on each other
abbrev pub cycle : Tables host
cycle = record {
  nodes = node "a" ∷ node "b" ∷ [];
  edges = edge "e1" "b" "a" ∷ edge "e2" "a" "b" ∷ [];
  events = [];
}

abbrev bounds : Bounds host
bounds = record {
  max_depth = 6;
  max_nodes = 500;
  weights = default_weights host;
  min_strength = 1000;
}

-- the node that depends on "a", whose own dependence on it is not followed back
abbrev hits : List (Hit host)
hits =
    (record {
      node_id = "b";
      depth = 1;
      strength = 9000;
      path = "a" ∷ "b" ∷ [];
      via_edge = "depends_on";
    })
    ∷ []

found_hits : dependents host bounds "a" 20 cycle ≡ some (ok hits)
unfolding dependents is_public_identifier edges_for reference_scope current_row traverse visit
    relax_all relax rounds sort_hits insert_hit
found_hits = refl

dependents_ends_example : dependents host bounds "a" 20 cycle ≢ none
dependents_ends_example = dependents_ends host bounds "a" 20 cycle

dependents_sound_example :
    ((h : Hit host) → In h hits → IsReached host bounds (edges_into host bounds 20 cycle) "a" h)
    × (1 ≤ 500)
    × ((n : String) → hits_of host n hits ≤ 1)
dependents_sound_example = dependents_sound host bounds "a" 20 cycle hits found_hits

-- another edge that points into "a"
abbrev fork : Tables host
fork = record cycle {
  nodes = node "a" ∷ node "b" ∷ node "c" ∷ [];
  edges = edge "e1" "b" "a" ∷ edge "e3" "c" "a" ∷ [];
}

into_a : edges_for host (inwards host) "a" none none 12 fork ≡ ok fork.edges
unfolding edges_for is_public_identifier reference_scope current_row
into_a = refl

-- "b" depends on "a" less than "c" does
abbrev weighted : Tables host
weighted = record fork {
  edges = record (edge "e1" "b" "a") { strength = 5000 } ∷ edge "e3" "c" "a" ∷ [];
}

-- both dependents of "a", the stronger one first
abbrev fork_hits : List (Hit host)
fork_hits = elim (dependents host bounds "a" 20 weighted) [
  | some (ok found) ↦ found
  | some (err e) ↦ []
  | none ↦ []
]

found_fork :
    (dependents host bounds "a" 20 weighted ≡ some (ok fork_hits))
    × (map (λ (h : Hit host). h.node_id) fork_hits ≡ "c" ∷ "b" ∷ [])
unfolding dependents is_public_identifier edges_for reference_scope current_row traverse visit
    relax_all relax rounds sort_hits insert_hit
found_fork = (refl, refl)

dependents-Ordered_example : IsNearestFirst host fork_hits
dependents-Ordered_example =
    dependents-Ordered host (λ a b h. ground arith) bounds "a" 20 weighted fork_hits found_fork.0

-- "e1" ends at 18, and is ended at 15
abbrev shortened : Tables host
shortened = record fork {
  edges =
      write_edge host 15 (ended_row host (some 18) none 15 (edge "e1" "b" "a"))
        (some (edge "e1" "b" "a")) fork.edges;
}

ended_in_fork : end_edge host "e1" "tnt_a" "prj_a" none (some 18) 15 fork ≡ ok shortened
unfolding end_edge is_public_identifier require_event_scope current_row ended_row
ended_in_fork = refl

remaining :
    edges_for host (inwards host) "a" none (some 18) 16 shortened ≡ ok (edge "e3" "c" "a" ∷ [])
unfolding edges_for is_public_identifier reference_scope current_row write_edge close_current
    ended_row
remaining = refl

edges_for-end_edge_example : (edge "e3" "c" "a").edge_id ≢ "e1"
unfolding live
edges_for-end_edge_example =
    edges_for-end_edge host "e1" "tnt_a" "prj_a" none (some 18) (some 18) 15 16 fork shortened
      (inwards host) "a" none (edge "e3" "c" "a" ∷ []) (edge "e3" "c" "a") (omega arith)
      ended_in_fork refl remaining (inl refl)

cycle-IsSole : IsSole host cycle.edges
unfolding live
cycle-IsSole id = elim (Bool-cases ("e1" == id)) [
  | inl here ↦
      subst (λ (k : String). live_edges host k cycle.edges ≤ 1) (==_sound "e1" id here)
        (omega arith)
  | inr other ↦ ground (arith, other)
]

-- the edge that is stored already, of another strength
abbrev stronger : EdgeWrite host
stronger = record {
  edge_type = "depends_on";
  src_id = "b";
  dst_id = "a";
  tenant_id = "tnt_a";
  project_id = "prj_a";
  strength = 9500;
  facts = none;
  valid_from = none;
  valid_to = none;
  event_id = none;
  edge_id = none;
}

abbrev stored : EdgeRow host × Tables host
stored = elim (put_edge host stronger "e3" 15 cycle) [
  | ok r ↦ r
  | err e ↦ (edge "e3" "b" "a", cycle)
]

put_stronger : put_edge host stronger "e3" 15 cycle ≡ ok stored
unfolding put_edge is_malformed_edge is_public_identifier require_event_scope reference_scope
    current_row existing_edge edge_row write_edge close_current
put_stronger = refl

put_edge-IsSole_example : IsSole host stored.1.edges
unfolding existing_edge
put_edge-IsSole_example =
    put_edge-IsSole host stronger "e3" 15 cycle stored.1 stored.0 cycle-IsSole
      (λ h. absurd (ground arith)) put_stronger
