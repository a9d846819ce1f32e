-- ===== src/Invalidation/Settle/Held.antt =====
-- What `resolve` of invalidation.py leaves to the other open invalidations.
use causal_continuity_engine.Prelude.{
  String, Bool, true, false, not, string_eq, if◌then◌else◌, List, [], ◌∷◌, Option, none, some, In,
  contains, Result, ok, err, ◌>>=◌, >>=-eq-ok, ◌≡◌, ◌≢◌, refl, ap, sym, ◌∙◌, inl, inr, arith, subst,
  Bool-cases, resolution_input_error,
}
use causal_continuity_engine.Ontology.{Status}
use causal_continuity_engine.Graph.Rows.{Host, NodeRow, Tables}
use causal_continuity_engine.Graph.Nodes.{put_node, get}
use causal_continuity_engine.Graph.Edges.{put_edge}
use causal_continuity_engine.Invalidation.Packet.{Receipt, Engine, Names}
use causal_continuity_engine.Invalidation.Writes.{status_write, transition}
use causal_continuity_engine.Invalidation.Confined.{put_edge-Confined, put_node-Confined_at}
use causal_continuity_engine.Invalidation.Spread.{transition-Confined}
use causal_continuity_engine.Invalidation.Reached.{ok_injective}
use causal_continuity_engine.Invalidation.Settle.Stored.{
  AffectedEntry, Mode, replacement_evidence, narrowed_scope, superseding_decision, Desk,
}
use causal_continuity_engine.Invalidation.Settle.Preflight.{References}
use causal_continuity_engine.Invalidation.Settle.Holds.{restored_status, restore_node, is_overlaid}
use causal_continuity_engine.Invalidation.Settle.Resolve.{
  Settlement, is_narrowing, replacement_edge, link_replacement, narrowing_write, is_reopened,
  required, settle_free, settle_held, settle_target, settle_all, resolution_write, resolution_of,
  write_resolution,
}
use causal_continuity_engine.Invalidation.Settle.Bound.{IsOwn}
use causal_continuity_engine.Invalidation.Settle.Keeps.{
  Keeps, Keeps-eq, Keeps-trans, Keeps-Confined, put_node-Keeps,
}

contrary : (b : Bool) → b ≡ false → b ≡ true → ⊥
contrary b h k = ground arith

taken :
    {A : Type 0} (t r : Bool × A)
    → (if t.0 then ok (false, t.1) else err resolution_input_error) ≡ ok r
    → t.1 ≡ r.1
taken {A} (true, a) r h = ap (λ (x : Bool × A). x.1) (ok_injective _ _ h)
taken {A} (false, a) r h = absurd (ground arith)

third : {A B C : Type 0} (x y : A × B × C) → ok x ≡ ok y → x.2 ≡ y.2
third {A} {B} {C} x y h = ap (λ (z : A × B × C). z.2) (ok_injective x y h)

-- a node of the list is not one that is not in it
not_held :
    (held : List String) (id other : String)
    → contains held id ≡ true
    → contains held other ≡ false
    → id ≢ other
not_held held id other h k same =
    contrary (contains held other) k (ap (contains held) (sym same) ∙ h)

module _ (host : Host) (engine : Engine host) (desk : Desk host) (names : Names) (now : host.Time)
    (id : String) where
  abbrev Others : String → Type 0
  Others x = id ≢ x

  restore_node-Keeps :
      (node : NodeRow host) (receipt : Receipt) (event_id : Option String) (db : Tables host)
      (r : Bool × Tables host)
      → id ≢ node.node_id
      → restore_node host engine desk now node receipt event_id db ≡ ok r
      → Keeps host id db r.1
  unfolding restore_node
  restore_node-Keeps node receipt event_id db r other h =
      elim (Bool-cases (not (desk.may_mandate node))) [
        | inl refused ↦ Keeps-eq host id db r.1 (ground arith)
        | inr allowed ↦
            let w =
              status_write host node.entity_type node.tenant_id node.project_id (some node.node_id)
                (some (restored_status host node receipt)) engine.codec.nothing event_id in
            let opened : (put_node host w "" now db >>= λ s. ok (true, s.1)) ≡ ok r =
              rw allowed at h in
            let (s, wrote, e) =
              >>=-eq-ok (put_node host w "" now db) (λ s. ok (true, s.1)) opened in
            let same = ap (λ (x : Bool × Tables host). x.1) (ok_injective _ _ e) in
            subst (Keeps host id db) same (
              Keeps-Confined host id db s.1 (
                put_node-Confined_at host w "" now db s.1 s.0 (λ h. absurd (ground arith)) other
                  wrote))
      ]

  link_replacement-Keeps :
      (inv : NodeRow host) (s : Settlement host engine desk names now) (target : String)
      (r : Option (NodeRow host)) (db after : Tables host)
      → link_replacement host engine desk names now inv s target r db ≡ ok after
      → Keeps host id db after
  unfolding link_replacement
  link_replacement-Keeps inv s target none db after h =
      Keeps-eq host id db after (sym (ok_injective _ _ h))
  link_replacement-Keeps inv s target (some r) db after h =
      let w = replacement_edge host engine desk names now inv s target r in
      let (e, linked, h1) =
        >>=-eq-ok (put_edge host w (names.edge w.edge_type target) now db) (λ e. ok e.1) h in
      subst (Keeps host id db) (ok_injective _ _ h1) (
        Keeps-Confined host id db e.1
          (put_edge-Confined host w (names.edge w.edge_type target) now db e.1 e.0 linked))

  required-Keeps :
      (target : NodeRow host) (s : Settlement host engine desk names now) (status : Status)
      (db : Tables host) (r : Bool × Tables host)
      → id ≢ target.node_id
      → required host engine desk names now target s status db ≡ ok r
      → Keeps host id db r.1
  required-Keeps target s status db r other h =
      let (t, moved, h1) =
        >>=-eq-ok (transition host engine.codec now target status s.event_id db)
          (λ t. if t.0 then ok (false, t.1) else err resolution_input_error) h in
      let same : t.1 ≡ r.1 = taken t r h1 in
      subst (Keeps host id db) same (
        Keeps-Confined host id db t.1 (
          transition-Confined host engine.codec now Others target status s.event_id db t other
            moved))

  settle_free-Keeps :
      (mode : Mode) (target : NodeRow host) (receipt : Receipt)
      (s : Settlement host engine desk names now) (db : Tables host) (r : Bool × Tables host)
      → id ≢ target.node_id
      → settle_free host engine desk names now mode target receipt s db ≡ ok r
      → Keeps host id db r.1
  unfolding settle_free
  settle_free-Keeps superseding_decision target receipt s db r other h =
      required-Keeps target s Status.superseded db r other h
  settle_free-Keeps replacement_evidence target receipt s db r other h =
      required-Keeps target s Status.resolved db r other h
  settle_free-Keeps narrowed_scope target receipt s db r other h =
      let w =
        narrowing_write host engine desk names now target s
          (some (restored_status host target receipt))
          (is_reopened host engine desk names now target) in
      let (t, wrote, e) = >>=-eq-ok (put_node host w "" now db) (λ t. ok (true, t.1)) h in
      subst (Keeps host id db) (ap (λ (x : Bool × Tables host). x.1) (ok_injective _ _ e)) (
        Keeps-Confined host id db t.1
          (put_node-Confined_at host w "" now db t.1 t.0 (λ h. absurd (ground arith)) other wrote))

  settle_held-Keeps :
      (target : NodeRow host) (s : Settlement host engine desk names now) (db after : Tables host)
      → settle_held host engine desk names now target s db ≡ ok after
      → Keeps host id db after
  unfolding settle_held
  settle_held-Keeps target s db after h = elim (Bool-cases (is_narrowing s.mode)) [
    | inr other ↦ Keeps-eq host id db after (ground arith)
    | inl narrow ↦
        let w = narrowing_write host engine desk names now target s none false in
        let opened : (put_node host w "" now db >>= λ r. ok r.1) ≡ ok after = rw narrow at h in
        let (t, wrote, e) = >>=-eq-ok (put_node host w "" now db) (λ r. ok r.1) opened in
        subst (Keeps host id db) (ok_injective _ _ e)
          (put_node-Keeps host id w target.node_id now db t.1 t.0 refl refl wrote)
  ]

  module _ (held : List String) (is_held : contains held id ≡ true) where
    settle_target-Keeps :
        (target : NodeRow host) (receipt : Receipt) (s : Settlement host engine desk names now)
        (db : Tables host) (r : Bool × Bool × Tables host)
        → settle_target host engine desk names now target receipt s held db ≡ ok r
        → Keeps host id db r.2
    unfolding settle_target
    settle_target-Keeps target receipt s db r h =
        elim (Bool-cases (not (desk.may_mandate target))) [
          | inl barred ↦ Keeps-eq host id db r.2 (ground arith)
          | inr allowed ↦ elim (Bool-cases (contains held target.node_id)) [
            | inl kept ↦
                let opened : (settle_held host engine desk names now target s db >>= λ t.
                ok (false, true, t))
                    ≡ ok r =
                  rw kept at (rw allowed at h) in
                let (t, wrote, e) =
                  >>=-eq-ok (settle_held host engine desk names now target s db)
                    (λ t. ok (false, true, t)) opened in
                subst (Keeps host id db) (third _ r e) (settle_held-Keeps target s db t wrote)
            | inr free ↦
                let opened : (settle_free host engine desk names now s.mode target receipt s db
                      >>= λ t. ok (t.0, false, t.1))
                    ≡ ok r =
                  rw free at (rw allowed at h) in
                let (t, wrote, e) =
                  >>=-eq-ok (settle_free host engine desk names now s.mode target receipt s db)
                    (λ t. ok (t.0, false, t.1)) opened in
                subst (Keeps host id db) (third _ r e) (
                  settle_free-Keeps s.mode target receipt s db t
                    (not_held held id target.node_id is_held free) wrote)
          ]
        ]

    -- what follows the restoring of one affected node
    abbrev listed :
        Settlement host engine desk names now
        → AffectedEntry × NodeRow host
        → List (AffectedEntry × NodeRow host)
        → Bool × Tables host
        → Result (List String × List String × Tables host)
    listed s x rest r = settle_all host engine desk names now s held rest r.1 >>= λ l. ok (
      (if r.0 then x.0.receipt.node_id ∷ l.0 else l.0),
      (if r.0 then l.1 else x.0.receipt.node_id ∷ l.1),
      l.2,
    )

    settle_all-Keeps :
        (s : Settlement host engine desk names now) (list : List (AffectedEntry × NodeRow host))
        (db : Tables host) (r : List String × List String × Tables host)
        → ((x : AffectedEntry × NodeRow host) → In x list → IsOwn host x)
        → settle_all host engine desk names now s held list db ≡ ok r
        → Keeps host id db r.2
    unfolding settle_all
    settle_all-Keeps s [] db r own h = Keeps-eq host id db r.2 (ground arith)
    settle_all-Keeps s (x ∷ rest) db r own h = elim (Bool-cases (is_overlaid x.1.status)) [
      | inr plain ↦ settle_all-Keeps s rest db r (λ y i. own y (inr i)) (cc)
      | inl overlaid ↦ elim (Bool-cases (contains held x.0.receipt.node_id)) [
        | inl kept ↦
            let opened : (settle_all host engine desk names now s held rest db >>= λ l.
            ok (l.0, x.0.receipt.node_id ∷ l.1, l.2))
                ≡ ok r =
              cc in
            let (l, later, e) =
              >>=-eq-ok (settle_all host engine desk names now s held rest db)
                (λ l. ok (l.0, x.0.receipt.node_id ∷ l.1, l.2)) opened in
            subst (Keeps host id db) (third _ r e)
              (settle_all-Keeps s rest db l (λ y i. own y (inr i)) later)
        | inr free ↦
            let restored = restore_node host engine desk now x.1 x.0.receipt s.event_id db in
            let opened : (restored >>= listed s x rest) ≡ ok r = cc in
            let (t, wrote, h1) = >>=-eq-ok restored (listed s x rest) opened in
            let (l, later, e) =
              >>=-eq-ok (settle_all host engine desk names now s held rest t.1)
                (λ l. ok (
                  (if t.0 then x.0.receipt.node_id ∷ l.0 else l.0),
                  (if t.0 then l.1 else x.0.receipt.node_id ∷ l.1),
                  l.2,
                ))
                h1 in
            let differs : id ≢ x.1.node_id =
              λ same. not_held held id x.0.receipt.node_id is_held free (same ∙ own x (inl refl)) in
            subst (Keeps host id db) (third _ r e) (
              Keeps-trans host id db t.1 l.2
                (restore_node-Keeps x.1 x.0.receipt s.event_id db t differs wrote)
                (settle_all-Keeps s rest t.1 l (λ y i. own y (inr i)) later))
      ]
    ]

    pub write_resolution-Keeps :
        (inv : NodeRow host) (own_id : String) (s : Settlement host engine desk names now)
        (p : References host) (replacement : Option (NodeRow host)) (db after : Tables host)
        → id ≢ own_id
        → ((x : AffectedEntry × NodeRow host) → In x p.affected → IsOwn host x)
        → write_resolution host engine desk names now inv own_id s p replacement held db ≡ ok after
        → Keeps host id db after
    unfolding write_resolution
    write_resolution-Keeps inv own_id s p replacement db after other own h =
        let (linked, a, h1) =
          >>=-eq-ok
            (link_replacement host engine desk names now inv s p.target.node_id replacement db) _
            h in
        let (t, b, h2) =
          >>=-eq-ok (settle_target host engine desk names now p.target p.transition s held linked) _
            h1 in
        let (l, c, h3) =
          >>=-eq-ok (settle_all host engine desk names now s held p.affected t.2) _ h2 in
        let (now_target, d, h4) =
          >>=-eq-ok
            (get host p.target.node_id (some inv.tenant_id) (some inv.project_id)
              (some p.target.entity_type) l.2)
            _ h3 in
        let w =
          resolution_write host engine desk names now inv own_id s
            (resolution_of host engine desk names now s replacement p.target now_target t l) in
        let (r, wrote, e) = >>=-eq-ok (put_node host w "" now l.2) (λ r. ok r.1) h4 in
        subst (Keeps host id db) (ok_injective _ _ e) (
          Keeps-trans host id db linked r.1
            (link_replacement-Keeps inv s p.target.node_id replacement db linked a)
            (Keeps-trans host id linked t.2 r.1
              (settle_target-Keeps p.target p.transition s linked t b)
              (Keeps-trans host id t.2 l.2 r.1 (settle_all-Keeps s p.affected t.2 l own c) (
                Keeps-Confined host id l.2 r.1 (
                  put_node-Confined_at host w "" now l.2 r.1 r.0 (λ h. absurd (ground arith)) other
                    wrote)))))
