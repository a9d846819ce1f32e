-- ===== src/Invalidation/Spread.antt =====
-- The writes of an invalidation stay within its target and the affected nodes, in invalidation.py.
use causal_continuity_engine.Prelude.{
  String, Bool, true, false, not, ◌&&◌, ◌||◌, ◌==◌, string_eq, if◌then◌else◌, List, [], ◌∷◌, Option,
  none, some, In, Result, ok, ◌>>=◌, >>=-eq-ok, ◌≡◌, refl, sym, inl, inr, arith, subst, Bool-cases,
  Option-cases,
}
use causal_continuity_engine.Ontology.{Status, Impact, is_valid_transition}
use causal_continuity_engine.Graph.Rows.{Host, NodeRow, Tables}
use causal_continuity_engine.Graph.Nodes.{put_node, get}
use causal_continuity_engine.Graph.Edges.{put_edge}
use causal_continuity_engine.Invalidation.Impact.{impact_status, is_blocked, is_review_required}
use causal_continuity_engine.Invalidation.Packet.{Affected, Codec, Trigger, Names}
use causal_continuity_engine.Invalidation.Writes.{
  status_write, transition, apply_impact, apply_status, apply_all, announce_all, affects_edge,
  record_applied,
}
use causal_continuity_engine.Invalidation.Confined.{
  Confined, Confined-refl, Confined-trans, put_edge-Confined, put_node-Confined_at, get-node_id,
}

module _ (host : Host) (codec : Codec host) (now : host.Time) where
  -- what follows `_apply_impact` in the loop
  abbrev recorded :
      Trigger host
      → Affected host
      → NodeRow host
      → Bool × Tables host
      → Result (Affected host × Bool × Tables host)
  recorded q c node r =
      if not r.0
      then ok (c, true, r.1)
      else get host c.receipt.node_id (some q.tenant_id) (some q.project_id) (some c.entity_type)
          r.1
        >>= λ after. ok (record_applied host codec now c node.status after.status, false, r.1)

  recorded-tables :
      (q : Trigger host) (c : Affected host) (node : NodeRow host) (a : Bool × Tables host)
      (r : Affected host × Bool × Tables host)
      → recorded q c node a ≡ ok r
      → r.2 ≡ a.1
  recorded-tables q c node a r h = elim (Bool-cases (not a.0)) [
    | inl refused ↦ ground arith
    | inr applied ↦
        let (x, found, e) =
          >>=-eq-ok
            (get host c.receipt.node_id (some q.tenant_id) (some q.project_id) (some c.entity_type)
              a.1)
            (λ after. ok (record_applied host codec now c node.status after.status, false, a.1))
            (rw applied at h) in
        ground arith
  ]

module _ (host : Host) (codec : Codec host) (now : host.Time) (P : String → Type 0) where
  -- an answer that needs a check to fail
  pub transition-Confined :
      (node : NodeRow host) (status : Status) (event_id : Option String) (db : Tables host)
      (r : Bool × Tables host)
      → P node.node_id
      → transition host codec now node status event_id db ≡ ok r
      → Confined host P db r.1
  unfolding transition
  transition-Confined node status event_id db r p h =
      elim (Bool-cases (
        node.entity_type == "assumption"
        && not (
            is_valid_transition (elim node.status [ none ↦ Status.proposed | some s ↦ s ])
              status))) [
                | inl refused ↦
                    let same : r.1 ≡ db = ground arith in
                    subst (λ t. Confined host P db t) (sym same) (Confined-refl host db)
                | inr allowed ↦
                    let w =
                      status_write host node.entity_type node.tenant_id node.project_id
                        (some node.node_id) (some status) codec.nothing event_id in
                    let opened : (put_node host w "" now db >>= λ s. ok (true, s.1)) ≡ ok r =
                      rw allowed at h in
                    let (s, wrote, e) =
                      >>=-eq-ok (put_node host w "" now db) (λ s. ok (true, s.1)) opened in
                    let same : r.1 ≡ s.1 = ground arith in
                    subst (λ t. Confined host P db t) (sym same)
                      (put_node-Confined_at host w "" now db s.1 s.0 (λ h. absurd (ground arith)) p
                        wrote)
              ]

  apply_impact-Confined :
      (impact : Impact) (event_id : Option String) (node : NodeRow host) (db : Tables host)
      (r : Bool × Tables host)
      → P node.node_id
      → apply_impact host codec now impact event_id node db ≡ ok r
      → Confined host P db r.1
  unfolding apply_impact
  apply_impact-Confined impact event_id node db r p h =
      elim (Option-cases (impact_status node.entity_type impact)) [
        | inl e ↦
            let same : r.1 ≡ db = ground arith in
            subst (λ t. Confined host P db t) (sym same) (Confined-refl host db)
        | inr (s, e) ↦ transition-Confined node s event_id db r p (cc)
      ]

  apply_status-Confined :
      (q : Trigger host) (c : Affected host) (db : Tables host)
      (r : Affected host × Bool × Tables host)
      → P c.receipt.node_id
      → apply_status host codec now q c db ≡ ok r
      → Confined host P db r.2
  unfolding apply_status
  apply_status-Confined q c db r p h =
      elim (Bool-cases (not (is_review_required c.impact || is_blocked c.impact))) [
        | inl spared ↦
            let same : r.2 ≡ db = ground arith in
            subst (λ t. Confined host P db t) (sym same) (Confined-refl host db)
        | inr hit ↦
            let (node, found, h1) =
              >>=-eq-ok
                (get host c.receipt.node_id (some q.tenant_id) (some q.project_id)
                  (some c.entity_type) db)
                (λ node.
                  apply_impact host codec now c.impact q.event_id node db
                  >>= recorded host codec now q c node)
                (rw hit at h) in
            let (a, applied, h2) =
              >>=-eq-ok (apply_impact host codec now c.impact q.event_id node db)
                (recorded host codec now q c node) h1 in
            let named = get-node_id host c.receipt.node_id _ _ _ db node found in
            subst (λ t. Confined host P db t) (sym (recorded-tables host codec now q c node a r h2))
              (apply_impact-Confined c.impact q.event_id node db a (subst P (sym named) p) applied)
      ]

  -- the nodes of the entries have the property
  abbrev pub Within : List (Affected host) → Type 0
  Within list = (c : Affected host) → In c list → P c.receipt.node_id

  pub apply_all-Confined :
      (names : Names) (q : Trigger host) (inv : String) (list : List (Affected host))
      (db : Tables host) (r : List (Affected host) × List String × Tables host)
      → Within list
      → apply_all host codec now names q inv list db ≡ ok r
      → Confined host P db r.2
  unfolding apply_all
  apply_all-Confined names q inv [] db r within h =
      let same : r.2 ≡ db = ground arith in
      subst (λ t. Confined host P db t) (sym same) (Confined-refl host db)
  apply_all-Confined names q inv (c ∷ rest) db r within h =
      let (s, applied, h1) = >>=-eq-ok (apply_status host codec now q c db) _ h in
      let w = affects_edge host codec now names q inv c (codec.impact_of (some c.impact)) in
      let (e, linked, h2) =
        >>=-eq-ok (put_edge host w (names.edge "affects" c.receipt.node_id) now s.2) _ h1 in
      let (l, later, h3) = >>=-eq-ok (apply_all host codec now names q inv rest e.1) _ h2 in
      let same : r.2 ≡ l.2 = ground arith in
      subst (λ t. Confined host P db t) (sym same)
        (Confined-trans host db s.2 l.2
          (apply_status-Confined q c db s (within c (inl refl)) applied)
          (Confined-trans host s.2 e.1 l.2
            (put_edge-Confined host w (names.edge "affects" c.receipt.node_id) now s.2 e.1 e.0
              linked)
            (apply_all-Confined names q inv rest e.1 l (λ x i. within x (inr i)) later)))

  pub announce_all-Confined :
      (names : Names) (q : Trigger host) (inv : String) (list : List (Affected host))
      (db after : Tables host)
      → announce_all host codec now names q inv list db ≡ ok after
      → Confined host P db after
  unfolding announce_all
  announce_all-Confined names q inv [] db after h =
      let same : after ≡ db = ground arith in
      subst (λ t. Confined host P db t) (sym same) (Confined-refl host db)
  announce_all-Confined names q inv (c ∷ rest) db after h =
      let w = affects_edge host codec now names q inv c (codec.impact_of none) in
      let (e, linked, h1) =
        >>=-eq-ok (put_edge host w (names.edge "affects" c.receipt.node_id) now db) _ h in
      Confined-trans host db e.1 after
        (put_edge-Confined host w (names.edge "affects" c.receipt.node_id) now db e.1 e.0 linked)
        (announce_all-Confined names q inv rest e.1 after h1)
