-- ===== src/Invalidation/Blocking/Runs.antt =====
-- A concrete run of invalidation.py's `blocking_invalidations`, over a cycle of dependencies.
use causal_continuity_engine.Core.{is_public_identifier}
use causal_continuity_engine.Prelude.{
  List, [], ◌∷◌, some, In, inl, ok, err, Error, ◌≡◌, ◌⊎◌, string_eq, refl,
}
use causal_continuity_engine.Ontology.{status_beq, Status}
use causal_continuity_engine.Graph.Rows.{NodeRow, Tables}
use causal_continuity_engine.Graph.Table.{current_row}
use causal_continuity_engine.Graph.Nodes.{get}
use causal_continuity_engine.Graph.Nodes.Runs.{host}
use causal_continuity_engine.Graph.Reads.{current}
use causal_continuity_engine.Graph.Edges.{reference_scope}
use causal_continuity_engine.Graph.Adjacent.{edges_for}
use causal_continuity_engine.Graph.Traverse.Runs.{node, edge}
use causal_continuity_engine.Invalidation.Runs.{engine}
use causal_continuity_engine.Invalidation.Settle.Runs.{desk, notice}
use causal_continuity_engine.Invalidation.Blocking.{
  climb, ascend, dependencies, open_invalidations, blocking_invalidations,
}
use causal_continuity_engine.Invalidation.Blocking.Ends.{blocking_ends}
use causal_continuity_engine.Invalidation.Blocking.Reach.{itself, beyond, blocking_complete}

-- "a" and "b" depend on each other, and an open invalidation is of "a"
abbrev blocked : Tables host
blocked = record {
  nodes =
      record (node "prj_a") { entity_type = "project" }
      ∷ node "a"
      ∷ node "b"
      ∷ notice "inv_1" Status.opened
      ∷ [];
  edges = edge "e1" "b" "a" ∷ edge "e2" "a" "b" ∷ [];
  events = [];
}

opens : open_invalidations host engine "prj_a" blocked ≡ ok (notice "inv_1" Status.opened ∷ [])
unfolding open_invalidations is_public_identifier get current current_row status_beq
opens = refl

blocks :
    blocking_invalidations host engine desk "prj_a" "b" 20 blocked
    ≡ ok (some (notice "inv_1" Status.opened ∷ []))
unfolding blocking_invalidations ascend climb open_invalidations is_public_identifier get current
    current_row edges_for reference_scope status_beq
blocks = refl

depends : dependencies host engine "b" 20 blocked ≡ ok (edge "e1" "b" "a" ∷ [])
unfolding is_public_identifier current_row edges_for reference_scope
depends = refl

blocking_ends_example :
    ((blockers : List (NodeRow host)) × (blocking_invalidations host engine desk "prj_a" "b" 20
          blocked
        ≡ ok (some blockers)))
    ⊎ ((e : Error) × (blocking_invalidations host engine desk "prj_a" "b" 20 blocked ≡ err e))
blocking_ends_example = blocking_ends host engine desk "prj_a" "b" 20 blocked

blocking_complete_example : In (notice "inv_1" Status.opened) (notice "inv_1" Status.opened ∷ [])
blocking_complete_example =
    blocking_complete host engine desk "prj_a" "b" 20 blocked (notice "inv_1" Status.opened ∷ [])
      (notice "inv_1" Status.opened ∷ []) (notice "inv_1" Status.opened) "a" opens (inl refl)
      (beyond "b" (edge "e1" "b" "a" ∷ []) (edge "e1" "b" "a") itself depends (inl refl)) (inl refl)
      blocks
