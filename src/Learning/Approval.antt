-- ===== src/Learning/Approval.antt =====
-- The gate of a skill's approval, in learning.py's `approve`.
use causal_continuity_engine.Prelude.{
  String, Bool, true, false, not, [], ◌∷◌, none, some, ok, >>=-eq-ok, raise_if, value_error,
  permission_error, ◌≡◌, ◌≢◌, refl, arith,
}
use causal_continuity_engine.Ontology.{Status, status_eq}
use causal_continuity_engine.Graph.Rows.{Host, NodeRow, Tables}
use causal_continuity_engine.Graph.Nodes.{get, put_node, current_node}
use causal_continuity_engine.Graph.Nodes.Versions.{IsVersioned}
use causal_continuity_engine.Invalidation.Confined.{put_node-Confined_at}
use causal_continuity_engine.Invalidation.Reached.{unless_missing-ok}
use causal_continuity_engine.Invalidation.Settle.Stored.{is_one_of}
use causal_continuity_engine.Memory.Rows.{Keeper}
use causal_continuity_engine.Partial.{own_node}
use causal_continuity_engine.Learning.{Library, approval_write, approve}

met : (b : Bool) (u : Unit {0}) → raise_if (not b) value_error ≡ ok u → b ≡ true
met true u h = refl
met false u h = absurd (ground arith)

module _ (host : Host) (manager : Keeper host) (library : Library host) (now : host.Time) where
  -- An accepted approval passed every gate and touches nothing else: the evaluation had passed, the
  -- node was a proposed skill of the bound tenant, and, where the table is versioned, no other node
  -- changes.
  pub approve_gated :
      (id actor other : String) (passed : Bool) (db after : Tables host) (out : NodeRow host)
      → IsVersioned host db.nodes
      → other ≢ id
      → approve host manager library now id actor passed db ≡ ok (out, after)
      → (passed ≡ true)
        × ((skill : NodeRow host) × (get host id manager.tenant_id none (some "skill") db
              ≡ ok skill)
            × (is_one_of (Status.proposed ∷ []) skill.status ≡ true))
        × (current_node host other after.nodes ≡ current_node host other db.nodes)
  unfolding approve
  approve_gated id actor other passed db after out v apart h =
      let (a, a', h1) = >>=-eq-ok (raise_if (not (manager.is_human_text actor)) value_error) _ h in
      let (skill, read, h2) = >>=-eq-ok (own_node host manager id (some "skill") db) _ h1 in
      let (b, b', h3) =
        >>=-eq-ok (raise_if (not (is_one_of (Status.proposed ∷ []) skill.status)) value_error) _
          h2 in
      let (c, c', h4) =
        >>=-eq-ok (raise_if (not passed) value_error)
          (λ _. put_node host (approval_write host manager library now skill id actor) "" now db)
          h3 in
      let spared =
        put_node-Confined_at host {P = λ x. x ≡ id}
          (approval_write host manager library now skill id actor) "" now db after out
          (λ none_given. absurd (ground arith)) refl h4 in
      (
        met passed c c',
        (
          skill,
          unless_missing-ok (get host id manager.tenant_id none (some "skill") db) permission_error
              skill read,
          met _ b b',
        ),
        spared.unchanged v other apart,
      )
