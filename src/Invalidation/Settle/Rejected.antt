-- ===== src/Invalidation/Settle/Rejected.antt =====
-- A human's refusal of a gated invalidation, in invalidation.py's `_confirm`.
use causal_continuity_engine.Prelude.{
  String, Bool, true, false, not, string_eq, List, [], ◌∷◌, ◌++◌, map, Option, none, In, any, ok,
  ◌>>=◌, raise_if, >>=-eq-ok, value_error, permission_error, ◌≡◌, ◌≢◌, refl, ap, sym, ◌∙◌, inl, inr,
  arith, subst,
}
use causal_continuity_engine.Core.{is_public_identifier}
use causal_continuity_engine.Ontology.{Status, status_eq}
use causal_continuity_engine.Graph.Rows.{Host, NodeRow, Tables}
use causal_continuity_engine.Graph.Nodes.{get, put_node, is_malformed_id, current_node}
use causal_continuity_engine.Graph.Nodes.Versions.{IsVersioned}
use causal_continuity_engine.Invalidation.Packet.{Receipt, Engine}
use causal_continuity_engine.Invalidation.Confined.{Confined, put_node-Confined_at}
use causal_continuity_engine.Invalidation.Reached.{ok_injective}
use causal_continuity_engine.Invalidation.Settle.Stored.{AffectedEntry, Stored, Desk, is_one_of}
use causal_continuity_engine.Invalidation.Settle.Preflight.{
  References, nodes_of, preflight, is_applied,
}
use causal_continuity_engine.Invalidation.Settle.Holds.{
  release_all, release_unheld, nodes_held_by_others,
}
use causal_continuity_engine.Invalidation.Settle.Confirm.{
  is_unowned, nothing_applied, confirmation_write, sweep, settle_confirmation, confirm_locked,
  confirm,
}
use causal_continuity_engine.Invalidation.Settle.Bound.{IsChecked, preflight-IsChecked}

-- receipts of impacts that were not applied
abbrev pub IsIdle : List Receipt → Type 0
IsIdle l = (r : Receipt) → In r l → r.impact_applied ≡ false

IsIdle-append : (xs ys : List Receipt) → IsIdle xs → IsIdle ys → IsIdle (xs ++ ys)
IsIdle-append [] ys a b = b
IsIdle-append (x ∷ xs) ys a b =
    let later = IsIdle-append xs ys (λ r i. a r (inr i)) b in
    λ r i. elim i [ inl here ↦ a r (inl here) | inr j ↦ later r j ]

not_applied : (r : Receipt) → is_applied r ≡ false → r.impact_applied ≡ false
not_applied r h = ground arith

none_applied :
    (l : List AffectedEntry)
    → any (λ (e : AffectedEntry). is_applied e.receipt) l ≡ false
    → IsIdle (map (λ (e : AffectedEntry). e.receipt) l)
none_applied [] h = λ r i. absurd i
none_applied (e ∷ rest) h =
    let first : is_applied e.receipt ≡ false = ground arith in
    let later = none_applied rest (ground arith) in
    λ r i. elim i [ inl here ↦ not_applied r (ap is_applied here ∙ first) | inr j ↦ later r j ]

required_of : (b : Bool) (u : Unit {0}) → raise_if (not b) value_error ≡ ok u → b ≡ true
required_of true u h = refl
required_of false u h = absurd (ground arith)

module _ (host : Host) (engine : Engine host) (desk : Desk host) (now : host.Time) where
  release_all-idle :
      (nodes : List (String × NodeRow host)) (held : List String) (l : List Receipt)
      (event_id : Option String) (db : Tables host)
      → IsIdle l
      → release_all host engine desk now nodes held l event_id db ≡ ok ([], db)
  unfolding release_all
  release_all-idle nodes held [] event_id db idle = refl
  release_all-idle nodes held (r ∷ rest) event_id db idle =
      let later = release_all-idle nodes held rest event_id db (λ x i. idle x (inr i)) in
      rw (idle r (inl refl)) later

  -- a pending invalidation has no applied receipt
  pending-IsIdle :
      (inv : NodeRow host) (s : Stored) (p : References host)
      → is_one_of (Status.pending_confirmation ∷ []) inv.status ≡ true
      → IsChecked host inv s p
      → IsIdle (
          map
            (λ (e : AffectedEntry). e.receipt)
            (map (λ (x : AffectedEntry × NodeRow host). x.0) p.affected)
          ++ p.transition ∷ [])
  pending-IsIdle inv s p pending c =
      let target : is_applied s.target_transition ≡ false =
        (let late = c.in_time in ground (arith, pending, late)) in
      let rest : any (λ (e : AffectedEntry). is_applied e.receipt) s.affected ≡ false =
        (let late = c.in_time in ground (arith, pending, late)) in
      let entries =
        subst (λ l. any (λ (e : AffectedEntry). is_applied e.receipt) l ≡ false) (sym c.entries)
          rest in
      let recorded = map (λ (x : AffectedEntry × NodeRow host). x.0) p.affected in
      IsIdle-append (map (λ (e : AffectedEntry). e.receipt) recorded) (p.transition ∷ [])
        (none_applied recorded entries)
        (λ r i. elim i [
          | inl here ↦ not_applied r (ap is_applied (here ∙ c.transition) ∙ target)
          | inr nowhere ↦ absurd nowhere
        ])

  -- the sweep after a refusal changes nothing
  sweep-tables :
      (inv : NodeRow host) (id : String) (event_id : Option String) (p : References host)
      (db t : Tables host) (r : List String × Tables host)
      → IsIdle (
          map
            (λ (e : AffectedEntry). e.receipt)
            (map (λ (x : AffectedEntry × NodeRow host). x.0) p.affected)
          ++ p.transition ∷ [])
      → sweep host engine desk now inv id event_id p (nothing_applied host engine desk now p db) t
        ≡ ok r
      → r.1 ≡ t
  unfolding release_unheld
  sweep-tables inv id event_id p db t r idle h =
      let receipts =
        map (λ (e : AffectedEntry). e.receipt)
          (map (λ (x : AffectedEntry × NodeRow host). x.0) p.affected)
        ++ p.transition ∷ [] in
      let (held, listed, h1) =
        >>=-eq-ok (nodes_held_by_others host engine desk now inv.project_id id inv.tenant_id t)
          (λ held. release_all host engine desk now (nodes_of host p) held receipts event_id t) h in
      let none_released = release_all-idle (nodes_of host p) held receipts event_id t idle in
      ap (λ (x : List String × Tables host). x.1) (ok_injective r ([], t) (sym h1 ∙ none_released))

  refused-Confined :
      (inv : NodeRow host) (id actor : String) (event_id : Option String) (p : References host)
      (db after : Tables host) (out : NodeRow host)
      → IsIdle (
          map
            (λ (e : AffectedEntry). e.receipt)
            (map (λ (x : AffectedEntry × NodeRow host). x.0) p.affected)
          ++ p.transition ∷ [])
      → settle_confirmation host engine desk now inv id actor false event_id p db ≡ ok (out, after)
      → Confined host (λ x. x ≡ id) db after
  unfolding settle_confirmation
  refused-Confined inv id actor event_id p db after out idle h =
      let c = nothing_applied host engine desk now p db in
      let w = confirmation_write host engine desk now inv id actor false event_id c in
      let (o, wrote, h1) =
        >>=-eq-ok (put_node host w "" now db)
          (λ o. sweep host engine desk now inv id event_id p c o.1 >>= λ r. ok (o.0, r.1)) h in
      let (r, swept, h2) =
        >>=-eq-ok (sweep host engine desk now inv id event_id p c o.1) (λ r. ok (o.0, r.1)) h1 in
      let kept = sweep-tables inv id event_id p db o.1 r idle swept in
      let last : r.1 ≡ after =
        ap (λ (x : NodeRow host × Tables host). x.1) (ok_injective (o.0, r.1) (out, after) h2) in
      subst (Confined host (λ x. x ≡ id) db) (sym kept ∙ last) (
        put_node-Confined_at host w "" now db o.1 o.0 (λ none_given. absurd (ground arith)) refl
          wrote)

  refuse_locked-Confined :
      (id actor : String) (event_id : Option String) (db after : Tables host) (out : NodeRow host)
      → confirm_locked host engine desk now id actor false event_id db ≡ ok (out, after)
      → Confined host (λ x. x ≡ id) db after
  unfolding confirm_locked
  refuse_locked-Confined id actor event_id db after out h =
      let (inv, read, h1) = >>=-eq-ok (get host id engine.tenant_id none none db) _ h in
      let (a, a', h2) =
        >>=-eq-ok (raise_if (is_unowned host engine desk now inv.tenant_id) permission_error) _
          h1 in
      let (b, b', h3) =
        >>=-eq-ok
          (raise_if (not (is_one_of (Status.pending_confirmation ∷ []) inv.status)) value_error) _
          h2 in
      let (p, checked, h4) =
        >>=-eq-ok (preflight host desk now inv db)
          (λ p. settle_confirmation host engine desk now inv id actor false event_id p db) h3 in
      let (s, facts) = preflight-IsChecked host desk now inv db p checked in
      let idle = pending-IsIdle inv s p (required_of _ b b') facts in
      refused-Confined inv id actor event_id p db after out idle h4

  -- A human who says no to a gated invalidation changes no node but the invalidation itself: where
  -- `confirm` of a refusal succeeds, every other node has the current row that it had before, where
  -- the table of nodes is versioned.
  pub refusal_spares :
      (id actor : String) (event_id : Option String) (db after : Tables host) (out : NodeRow host)
      (other : String)
      → IsVersioned host db.nodes
      → other ≢ id
      → confirm host engine desk now id actor false event_id db ≡ ok (out, after)
      → current_node host other after.nodes ≡ current_node host other db.nodes
  unfolding confirm
  refusal_spares id actor event_id db after out other v apart h =
      let (a, a', h1) = >>=-eq-ok (raise_if (not (is_public_identifier id)) value_error) _ h in
      let (b, b', h2) = >>=-eq-ok (raise_if (is_malformed_id event_id) value_error) _ h1 in
      let (c, c', h3) = >>=-eq-ok (raise_if (not (engine.is_human_text actor)) value_error) _ h2 in
      (refuse_locked-Confined id actor event_id db after out h3).unchanged v other apart
