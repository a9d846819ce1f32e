-- ===== src/Invalidation/Lifecycle.antt =====
-- The status changes of invalidation.py's `_transition` keep to the lifecycle of assumptions.
use text.Mathlib.TextEquality.{eq_iff}
use causal_continuity_engine.Prelude.{
  String, Bool, true, false, not, ◌&&◌, ◌==◌, string_eq, Option, none, some, ok, ◌>>=◌, >>=-eq-ok,
  ◌≡◌, refl, ap, ◌∙◌, inl, inr, arith, Bool-cases, and-left, and-right, ==_refl, ==_sound,
}
use causal_continuity_engine.Ontology.{Status, is_valid_transition}
use causal_continuity_engine.Graph.Rows.{Host, NodeRow, Tables}
use causal_continuity_engine.Graph.Nodes.{NodeWrite, node_row, put_node, current_node, previous}
use causal_continuity_engine.Graph.Nodes.Versions.{IsVersioned}
use causal_continuity_engine.Graph.Nodes.Invariant.{put_node-refines}
use causal_continuity_engine.Invalidation.Packet.{Codec}
use causal_continuity_engine.Invalidation.Writes.{status_write, transition}

-- `node.get("status") or "proposed"`
abbrev pub standing : Option Status → Status
standing s = elim s [ none ↦ Status.proposed | some t ↦ t ]

ok_pair : {A B : Type 0} (x y : A × B) → ok x ≡ ok y → (y.0 ≡ x.0) × (y.1 ≡ x.1)
ok_pair x y h = (cc, cc)

not_both : {A : Type 0} (a : A) → some a ≡ none → ⊥
not_both a h = ground arith

contrary : (b : Bool) → b ≡ false → b ≡ true → ⊥
contrary b h k = ground arith

allowed_kind :
    (kind : String) (allowed : Bool)
    → kind ≡ "assumption"
    → (kind == "assumption" && not allowed) ≡ false
    → allowed ≡ true
allowed_kind kind allowed a h = ground (arith, eq_iff kind "assumption")

module _ (host : Host) (codec : Codec host) (now : host.Time) where
  node_row-status :
      (w : NodeWrite host) (id : String) (s : Status) (prev : Option (NodeRow host))
      → w.status ≡ some s
      → (node_row host w id now prev).status ≡ some s
  unfolding node_row
  node_row-status w id s none h = h
  node_row-status w id s (some p) h = ground (arith, h)

  -- what an answered transition has done
  pub record Moved (node : NodeRow host) (status : Status) (db after : Tables host) (moved : Bool)
      : Type 0 where
    pub refused :
        moved ≡ false
        → (after ≡ db)
          × (node.entity_type ≡ "assumption")
          × (is_valid_transition (standing node.status) status ≡ false)
    pub applied :
        moved ≡ true
        → ((r : NodeRow host) × (current_node host node.node_id after.nodes ≡ some r)
            × (r.status ≡ some status))
          × (node.entity_type ≡ "assumption"
              → is_valid_transition (standing node.status) status ≡ true)

  -- In a versioned table, `_transition` either declines, leaves everything as it was and says so,
  -- which it does only for an assumption whose lifecycle forbids the move, or the node's current row
  -- has the new status, and an assumption made a move that its lifecycle allows.
  pub transition-Moved :
      (node : NodeRow host) (status : Status) (event_id : Option String) (db after : Tables host)
      (moved : Bool)
      → IsVersioned host db.nodes
      → transition host codec now node status event_id db ≡ ok (moved, after)
      → Moved node status db after moved
  unfolding transition
  transition-Moved node status event_id db after moved v h =
      let kind = node.entity_type == "assumption" in
      let allowed = is_valid_transition (standing node.status) status in
      elim (Bool-cases (kind && not allowed)) [
        | inl forbidden ↦
            let stays : moved ≡ false = ground arith in
            let same : after ≡ db = ground arith in
            record {
              refused = λ e. (
                same,
                ==_sound node.entity_type "assumption" (and-left kind (not allowed) forbidden),
                ground (arith, and-right kind (not allowed) forbidden),
              );
              applied = λ e. absurd (ground arith);
            }
        | inr free ↦
            let w =
              status_write host node.entity_type node.tenant_id node.project_id (some node.node_id)
                (some status) codec.nothing event_id in
            let opened : (put_node host w "" now db >>= λ s. ok (true, s.1)) ≡ ok (moved, after) =
              rw free at h in
            let (s, wrote, e) =
              >>=-eq-ok (put_node host w "" now db) (λ s. ok (true, s.1)) opened in
            let (moves, same) = ok_pair (true, s.1) (moved, after) e in
            let (stored, rows) =
              put_node-refines host w "" now db s.1 s.0 v
                (λ (x : w.node_id ≡ none). absurd (not_both node.node_id x)) wrote in
            let here : current_node host node.node_id after.nodes ≡ some s.0 =
              ap (λ (t : Tables host). current_node host node.node_id t.nodes) same
              ∙ (rows node.node_id ∙ (rw (==_refl node.node_id) refl)) in
            let new : s.0.status ≡ some status =
              ap (λ (r : NodeRow host). r.status) stored
              ∙ node_row-status w node.node_id status (previous host w db.nodes) refl in
            record {
              refused = λ x. absurd (contrary moved x moves);
              applied = λ x. ((s.0, here, new), λ a. allowed_kind node.entity_type allowed a free);
            }
      ]
