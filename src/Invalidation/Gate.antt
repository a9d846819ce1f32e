-- ===== src/Invalidation/Gate.antt =====
-- What firing an invalidation leaves alone, in invalidation.py.
use causal_continuity_engine.Prelude.{
  String, Bool, true, false, not, string_eq, if◌then◌else◌, List, [], ◌∷◌, none, some, Result, ok,
  ◌>>=◌, >>=-eq-ok, ◌≡◌, sym, inl, inr, arith, subst, Bool-cases, Option-cases,
}
use causal_continuity_engine.Ontology.{Status}
use causal_continuity_engine.Graph.Rows.{Host, NodeRow, Tables}
use causal_continuity_engine.Graph.Nodes.{put_node, get}
use causal_continuity_engine.Graph.Edges.{put_edge}
use causal_continuity_engine.Invalidation.Packet.{Receipt, Affected, Engine, Trigger, Names}
use causal_continuity_engine.Invalidation.Writes.{
  status_write, transition, applied_receipt, apply_all,
}
use causal_continuity_engine.Invalidation.Fire.{
  link_edge, link_invalidation, apply_target, note, apply_changes, note_refused,
}
use causal_continuity_engine.Invalidation.Confined.{
  Confined, Confined-refl, Confined-trans, put_edge-Confined, put_node-Confined_at,
}
use causal_continuity_engine.Invalidation.Spread.{transition-Confined, apply_all-Confined, Within}

module _ (host : Host) (engine : Engine host) (names : Names) (now : host.Time) where
  open host use {Facts}

  -- what follows `_transition` of the target
  abbrev settled :
      Trigger host
      → NodeRow host
      → Receipt
      → Bool × Tables host
      → Result (Receipt × Bool × Tables host)
  settled q target receipt r =
      if not r.0
      then ok (receipt, true, r.1)
      else get host q.target_node_id (some q.tenant_id) (some q.project_id)
          (some target.entity_type) r.1
        >>= λ after. ok (applied_receipt host receipt target.status after.status, false, r.1)

  settled-tables :
      (q : Trigger host) (target : NodeRow host) (receipt : Receipt) (a : Bool × Tables host)
      (r : Receipt × Bool × Tables host)
      → settled q target receipt a ≡ ok r
      → r.2 ≡ a.1
  settled-tables q target receipt a r h = elim (Bool-cases (not a.0)) [
    | inl refused ↦ ground arith
    | inr applied ↦
        let (x, found, e) =
          >>=-eq-ok
            (get host q.target_node_id (some q.tenant_id) (some q.project_id)
              (some target.entity_type) a.1)
            (λ after. ok (applied_receipt host receipt target.status after.status, false, a.1))
            (rw applied at h) in
        ground arith
  ]

  module _ (P : String → Type 0) where
    pub link_invalidation-Confined :
        (q : Trigger host) (inv : String) (db after : Tables host)
        → link_invalidation host engine names now q inv db ≡ ok after
        → Confined host P db after
    unfolding link_invalidation
    link_invalidation-Confined q inv db after h =
        let w = link_edge host q "invalidates" inv q.target_node_id in
        let (e, linked, h1) =
          >>=-eq-ok (put_edge host w (names.edge "invalidates" q.target_node_id) now db) _ h in
        let first : Confined host P db e.1 =
          put_edge-Confined host w (names.edge "invalidates" q.target_node_id) now db e.1 e.0
            linked in
        elim (Option-cases q.trigger_evidence_id) [
          | inl nothing ↦
              let same : after ≡ e.1 = ground arith in
              subst (λ t. Confined host P db t) (sym same) first
          | inr (id, given) ↦
              let v = link_edge host q "derived_from" inv id in
              let more : (put_edge host v (names.edge "derived_from" id) now e.1 >>= λ d. ok d.1)
                  ≡ ok after =
                cc in
              let (d, sourced, h2) =
                >>=-eq-ok (put_edge host v (names.edge "derived_from" id) now e.1) (λ d. ok d.1)
                  more in
              let same : after ≡ d.1 = ground arith in
              subst (λ t. Confined host P db t) (sym same)
                (Confined-trans host db e.1 d.1 first
                  (put_edge-Confined host v (names.edge "derived_from" id) now e.1 d.1 d.0 sourced))
        ]

    apply_target-Confined :
        (q : Trigger host) (target : NodeRow host) (receipt : Receipt) (db : Tables host)
        (r : Receipt × Bool × Tables host)
        → P target.node_id
        → apply_target host engine names now q target receipt db ≡ ok r
        → Confined host P db r.2
    unfolding apply_target
    apply_target-Confined q target receipt db r p h =
        let (a, moved, h1) =
          >>=-eq-ok (transition host engine.codec now target Status.invalidated q.event_id db)
            (settled q target receipt) h in
        subst (λ t. Confined host P db t) (sym (settled-tables q target receipt a r h1))
          (transition-Confined host engine.codec now P target Status.invalidated q.event_id db a p
            moved)

    note-Confined :
        (q : Trigger host) (inv : String) (facts : Facts) (db after : Tables host)
        → P inv
        → note host engine names now q inv facts db ≡ ok after
        → Confined host P db after
    note-Confined q inv facts db after p h =
        let w =
          status_write host "invalidation" q.tenant_id q.project_id (some inv) none facts
            q.event_id in
        let (s, wrote, e) = >>=-eq-ok (put_node host w "" now db) (λ s. ok s.1) h in
        let same : after ≡ s.1 = ground arith in
        subst (λ t. Confined host P db t) (sym same)
          (put_node-Confined_at host w "" now db s.1 s.0 (λ h. absurd (ground arith)) p wrote)

    pub note_refused-Confined :
        (q : Trigger host) (inv : String) (refused : List String) (db after : Tables host)
        → P inv
        → note_refused host engine names now q inv refused db ≡ ok after
        → Confined host P db after
    unfolding note_refused
    note_refused-Confined q inv [] db after p h =
        let same : after ≡ db = ground arith in
        subst (λ t. Confined host P db t) (sym same) (Confined-refl host db)
    note_refused-Confined q inv (id ∷ refused) db after p h = note-Confined q inv _ db after p h

    pub apply_changes-Confined :
        (q : Trigger host) (inv : String) (target : NodeRow host) (receipt : Receipt)
        (classified : List (Affected host)) (db : Tables host) (r : List String × Tables host)
        → P inv
        → P target.node_id
        → Within host engine.codec now P classified
        → apply_changes host engine names now q inv target receipt classified db ≡ ok r
        → Confined host P db r.1
    unfolding apply_changes
    apply_changes-Confined q inv target receipt classified db r p pt within h =
        let (t, moved, h1) =
          >>=-eq-ok (apply_target host engine names now q target receipt db) _ h in
        let (l, applied, h2) =
          >>=-eq-ok (apply_all host engine.codec now names q inv classified t.2) _ h1 in
        let facts = engine.codec.applied l.0 t.0 in
        let (noted, wrote, h3) = >>=-eq-ok (note host engine names now q inv facts l.2) _ h2 in
        let same : r.1 ≡ noted = ground arith in
        subst (λ t. Confined host P db t) (sym same)
          (Confined-trans host db t.2 noted (apply_target-Confined q target receipt db t pt moved) (
            Confined-trans host t.2 l.2 noted
              (apply_all-Confined host engine.codec now P names q inv classified t.2 l within
                applied)
              (note-Confined q inv facts l.2 noted p wrote)))
