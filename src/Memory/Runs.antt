-- ===== src/Memory/Runs.antt =====
-- Concrete runs of memory.py: a provenance through a cycle, and the members of a tier.
use causal_continuity_engine.Core.{is_public_identifier}
use causal_continuity_engine.Prelude.{
  true, false, [], ◌∷◌, none, some, ok, ◌≡◌, string_eq, refl, Bool, Error, err, ◌⊎◌,
}
use causal_continuity_engine.Prelude.Text.{sorted_set}
use causal_continuity_engine.Ontology.{status_beq, Status}
use causal_continuity_engine.Graph.Rows.{NodeRow, Tables, get_event}
use causal_continuity_engine.Graph.Table.{current_row}
use causal_continuity_engine.Graph.Nodes.{get}
use causal_continuity_engine.Graph.Nodes.Runs.{host}
use causal_continuity_engine.Graph.Edges.{reference_scope}
use causal_continuity_engine.Graph.Adjacent.{edges_for}
use causal_continuity_engine.Graph.Traverse.Runs.{node, edge}
use causal_continuity_engine.Invalidation.Runs.{value}
use causal_continuity_engine.Memory.Rows.{Tier, Shelves, Keeper, require_node}
use causal_continuity_engine.Memory.Provenance.{
  any_walk, canonical_event_exists, is_terminal, is_event_backed, sources_of, walk_node,
  walk_missing, walk, has_real_provenance,
}
use causal_continuity_engine.Memory.Tiers.{promote}
use causal_continuity_engine.Memory.Walked.{IsRooted}
use causal_continuity_engine.Memory.Rooted.{provenance_rooted, provenance_ends}

abbrev pub keeper : Keeper host
keeper = record { tenant_id = some "tnt_a"; may_mandate = λ node. true; is_human_text = λ s. true }

-- "a" and "c" are derived from each other, and "a" from the evidence "z" too
abbrev pub sourced : Tables host
sourced = record {
  nodes =
      record (node "prj_a") { entity_type = "project" }
      ∷ node "a"
      ∷ node "c"
      ∷ record (node "z") { entity_type = "evidence"; status = some (Status.other "recorded") }
      ∷ [];
  edges =
      record (edge "e1" "a" "c") { edge_type = "derived_from" }
      ∷ record (edge "e2" "c" "a") { edge_type = "derived_from" }
      ∷ record (edge "e3" "a" "z") { edge_type = "derived_from" }
      ∷ [];
  events = [];
}

abbrev pub empty_shelves : Shelves host
empty_shelves = record { tables = sourced; assignments = [] }

-- "a" is pinned
abbrev pub pinned : Shelves host
pinned = value empty_shelves (promote host keeper 20 "prj_a" "a" Tier.l0 "ann" none empty_shelves)

finds : has_real_provenance host keeper "prj_a" "a" 20 sourced ≡ ok (some true)
unfolding has_real_provenance walk walk_node walk_missing any_walk sources_of is_event_backed
    is_terminal canonical_event_exists sorted_set get get_event current_row edges_for
    reference_scope is_public_identifier status_beq
finds = refl

-- "c" alone would only vouch for itself
finds_nothing :
    has_real_provenance host keeper "prj_a" "c" 20 (record sourced {
      edges =
          record (edge "e1" "a" "c") { edge_type = "derived_from" }
          ∷ record (edge "e2" "c" "a") { edge_type = "derived_from" }
          ∷ [];
    })
    ≡ ok (some false)
unfolding has_real_provenance walk walk_node walk_missing any_walk sources_of is_event_backed
    is_terminal canonical_event_exists sorted_set get get_event current_row edges_for
    reference_scope is_public_identifier status_beq
finds_nothing = refl

provenance_rooted_example :
    (row : NodeRow host) × (require_node host keeper "prj_a" "a" sourced ≡ ok row)
    × IsRooted host keeper 20 sourced row.tenant_id "prj_a" "a"
provenance_rooted_example = provenance_rooted host keeper "prj_a" "a" 20 sourced finds

provenance_ends_example :
    ((real : Bool) × (has_real_provenance host keeper "prj_a" "a" 20 sourced ≡ ok (some real)))
    ⊎ ((e : Error) × (has_real_provenance host keeper "prj_a" "a" 20 sourced ≡ err e))
provenance_ends_example = provenance_ends host keeper "prj_a" "a" 20 sourced
