-- ===== src/Memory/Rooted.antt =====
-- The search of memory.py's `_has_real_provenance` ends, and finds nothing that has no root.
use causal_continuity_engine.Prelude.{
  suc, String, Bool, true, string_eq, [], Option, some, ok, err, Error, >>=-eq-ok, Result-cases,
  ◌≡◌, refl, ◌⊎◌, inl, inr, arith,
}
use causal_continuity_engine.Graph.Rows.{Host, NodeRow, Tables}
use causal_continuity_engine.Memory.Rows.{Keeper, require_node}
use causal_continuity_engine.Memory.Provenance.{Notes, most_nodes, walk, has_real_provenance}
use causal_continuity_engine.Memory.Walked.{IsRooted, IsAnswer}
use causal_continuity_engine.Memory.Answers.{walk-IsAnswer}

-- the walk of a node that was found, from no notes
searched :
    (host : Host) (keeper : Keeper host) (project_id id : String) (now : host.Time)
    (db : Tables host) (tenant_id : String) (x : Option (Bool × Notes))
    → walk host keeper now db tenant_id project_id
        (suc (suc most_nodes))
        []
        id
        (record { memo = []; discovered = [] })
      ≡ ok x
    → IsAnswer host keeper now db tenant_id project_id []
        (record { memo = []; discovered = [] })
        (IsRooted host keeper now db tenant_id project_id id)
        x
searched host keeper project_id id now db tenant_id x h =
    walk-IsAnswer host keeper now db tenant_id project_id (suc (suc most_nodes)) [] 0 id
      (omega arith) (record { memo = []; discovered = [] }) x h
      (record {
        rooted = λ j e. absurd (ground (arith, e));
        bounded = omega arith;
        accounted = λ j i. absurd i;
      })
      (omega arith)

-- Provenance cannot be made up: where the search finds a real provenance, a path along the current
-- `derived_from`, `supports` and `verifies` edges leads from the node to a live human decision, a
-- passed authoritative verification, recorded evidence or an event of the project, however the
-- nodes vouch for one another in cycles.
pub provenance_rooted :
    (host : Host) (keeper : Keeper host) (project_id id : String) (now : host.Time)
    (db : Tables host)
    → has_real_provenance host keeper project_id id now db ≡ ok (some true)
    → (node : NodeRow host) × (require_node host keeper project_id id db ≡ ok node)
      × IsRooted host keeper now db node.tenant_id project_id id
unfolding has_real_provenance
provenance_rooted host keeper project_id id now db h =
    let (node, read, h1) = >>=-eq-ok (require_node host keeper project_id id db) _ h in
    let (found, walked, h2) =
      >>=-eq-ok
        (walk host keeper now db node.tenant_id project_id (suc (suc most_nodes)) [] id
          (record { memo = []; discovered = [] }))
        _ h1 in
    let a = searched host keeper project_id id now db node.tenant_id found walked in
    (node, read, a.holds (let last = rw a.given at h2 in ground (arith, last)))

-- The search ends, whatever the graph, cycles included: its fuel, for two more nodes than it visits
-- at most, never runs out, so it answers or raises the error of a read.
pub provenance_ends :
    (host : Host) (keeper : Keeper host) (project_id id : String) (now : host.Time)
    (db : Tables host)
    → ((real : Bool) × (has_real_provenance host keeper project_id id now db ≡ ok (some real)))
      ⊎ ((e : Error) × (has_real_provenance host keeper project_id id now db ≡ err e))
unfolding has_real_provenance
provenance_ends host keeper project_id id now db =
    elim (Result-cases (require_node host keeper project_id id db)) [
      | inl (e, failed) ↦ inr (e, rw failed refl)
      | inr (node, read) ↦
          elim (Result-cases (
            walk host keeper now db node.tenant_id project_id (suc (suc most_nodes)) [] id
              (record { memo = []; discovered = [] }))) [
                | inl (e, failed) ↦ inr (e, rw (read, failed) refl)
                | inr (found, walked) ↦
                    let a = searched host keeper project_id id now db node.tenant_id found walked in
                    inl (a.answer.0, rw (read, walked, a.given) refl)
              ]
    ]
