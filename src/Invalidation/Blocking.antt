-- ===== src/Invalidation/Blocking.antt =====
-- Which invalidations keep a node from being promoted, in invalidation.py: `open_invalidations` and
-- `blocking_invalidations`, with one reading of the clock for all reads of edges.
pub mod Ends
pub mod Reach
mod Runs
use causal_continuity_engine.Prelude.{
  ℕ, zero, suc, String, Bool, true, false, ◌||◌, ◌==◌, string_eq, if◌then◌else◌, List, [], ◌∷◌,
  ◌++◌, map, Option, none, some, contains, any, filter, length, ltb, leb, is_empty, Result, ok,
  ◌>>=◌, permission_error,
}
use causal_continuity_engine.Ontology.{Status, propagation_edges}
use causal_continuity_engine.Graph.Rows.{Host, NodeRow, EdgeRow, Tables}
use causal_continuity_engine.Graph.Nodes.{get}
use causal_continuity_engine.Graph.Adjacent.{out_edges}
use causal_continuity_engine.Graph.Reads.{current}
use causal_continuity_engine.Invalidation.Packet.{Engine}
use causal_continuity_engine.Invalidation.Writes.{unless_missing}
use causal_continuity_engine.Invalidation.Settle.Stored.{Desk, has_text}

-- `set(PROPAGATION_EDGES)`
abbrev pub dependency_kinds : List String
dependency_kinds = map (λ (w : String × ℕ). w.0) propagation_edges

-- `ancestors` and `frontier`, each entry of which has its depth
pub record Climb : Type 0 where
  pub ancestors : List String
  pub frontier : List (String × ℕ)

module _ (host : Host) (engine : Engine host) where
  open host use {Time}

  -- `_require_project`
  abbrev pub require_project : String → Tables host → Result (Unit {0})
  require_project project_id db = elim engine.tenant_id [
    | none ↦ ok tt
    | some bound ↦
        unless_missing permission_error
          (get host project_id (some bound) (some project_id) (some "project") db)
        >>= λ _. ok tt
  ]

  -- `open_invalidations`
  unfoldable pub open_invalidations : String → Tables host → Result (List (NodeRow host))
  open_invalidations project_id db = require_project project_id db >>= λ _.
      current host project_id (some "invalidation")
        (some (Status.opened ∷ Status.pending_confirmation ∷ [])) none engine.tenant_id db

  -- a dependency that is one too many
  abbrev pub is_exhausted : ℕ → List String → Bool
  is_exhausted depth ancestors =
      leb engine.max_depth depth || ltb engine.max_nodes (length ancestors)

  -- the loop over the edges of one node: whether the bounds are met, and the sets
  unfoldable pub climb : ℕ → List (EdgeRow host) → Climb → Bool × Climb
  climb depth [] s = (false, s)
  climb depth (edge ∷ rest) s = elim (contains s.ancestors edge.dst_id) [
    | true ↦ climb depth rest s
    | false ↦ elim (is_exhausted depth s.ancestors) [
      | true ↦ (true, s)
      | false ↦ climb depth rest (record {
        ancestors = edge.dst_id ∷ s.ancestors;
        frontier = s.frontier ++ (edge.dst_id, suc depth) ∷ [];
      })
    ]
  ]

  abbrev pub dependencies : String → Time → Tables host → Result (List (EdgeRow host))
  dependencies id now db = out_edges host id (some dependency_kinds) none now db

  -- the loop over the frontier, on fuel: whether it is incomplete, and the ancestors
  unfoldable pub ascend :
      ℕ
      → List String
      → List (String × ℕ)
      → Time
      → Tables host
      → Result (Option (Bool × List String))
  ascend fuel ancestors [] now db = ok (some (false, ancestors))
  ascend zero ancestors (x ∷ rest) now db = ok none
  ascend (suc fuel) ancestors (x ∷ rest) now db = dependencies x.0 now db >>= λ edges.
      let r = climb x.1 edges (record { ancestors = ancestors; frontier = rest }) in
      elim r.0 [
        | true ↦ ok (some (true, r.1.ancestors))
        | false ↦ ascend fuel r.1.ancestors r.1.frontier now db
      ]

  -- the search from the candidate, if there are invalidations
  abbrev pub ancestors_of :
      Bool → String → Time → Tables host → Result (Option (Bool × List String))
  ancestors_of nothing id now db =
      ascend (suc engine.max_nodes) (id ∷ []) (if nothing then [] else (id, 0) ∷ []) now db

  module _ (desk : Desk host) where
    -- `touched`
    abbrev pub touched : NodeRow host → List String
    touched inv =
        map (λ (e : String × Option _). e.0) (desk.entries inv.facts)
        ++ (elim (desk.target_of inv.facts) [ none ↦ [] | some id ↦ id ∷ [] ])

    abbrev pub is_blocker : Bool → List String → NodeRow host → Bool
    is_blocker incomplete ancestors inv =
        incomplete
        || any (contains ancestors) (touched inv)
        || has_text (desk.severity inv.facts) "critical"

    -- `blocking_invalidations`; `none` is the model's own, where the fuel runs out
    unfoldable pub blocking_invalidations :
        String → String → Time → Tables host → Result (Option (List (NodeRow host)))
    blocking_invalidations project_id id now db = do
      invalidations ← open_invalidations project_id db
      found ← ancestors_of (is_empty invalidations) id now db
      ok (elim found [ none ↦ none | some f ↦ some (filter (is_blocker f.0 f.1) invalidations) ])
