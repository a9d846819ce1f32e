-- ===== src/Invalidation/Settle/Others.antt =====
-- Which nodes the open invalidations hold, in invalidation.py's `_nodes_held_by_others`, and that
-- `resolve` leaves them alone.
use causal_continuity_engine.Invalidation.Confined.{get-node_id}
use causal_continuity_engine.Prelude.{
  String, Bool, true, false, not, ◌&&◌, ◌||◌, ◌==◌, string_eq, List, [], ◌∷◌, ◌++◌, none, some, In,
  contains, filter, ok, raise_if, >>=-eq-ok, ◌≡◌, ◌≢◌, refl, ap, sym, ◌∙◌, inl, inr, arith, subst,
  Bool-cases, value_error, permission_error, resolution_input_error, ==_refl, ==_sound,
}
use causal_continuity_engine.Core.{is_public_identifier}
use causal_continuity_engine.Ontology.{Status, status_eq, status_beq}
use causal_continuity_engine.Graph.Rows.{Host, NodeRow, Tables, is_null}
use causal_continuity_engine.Graph.Nodes.{get, is_malformed_id}
use causal_continuity_engine.Graph.Nodes.Versions.{IsVersioned}
use causal_continuity_engine.Graph.Reads.{current, is_selected}
use causal_continuity_engine.Invalidation.Packet.{Engine, Names}
use causal_continuity_engine.Invalidation.Reached.{ok_injective}
use causal_continuity_engine.Invalidation.Settle.Stored.{Desk, is_one_of}
use causal_continuity_engine.Invalidation.Settle.Preflight.{preflight}
use causal_continuity_engine.Invalidation.Settle.Holds.{
  held_by, held_by_all, nodes_held_by_others, tenant_or,
}
use causal_continuity_engine.Invalidation.Settle.Confirm.{is_unowned}
use causal_continuity_engine.Invalidation.Settle.Resolve.{
  Settlement, resolution_inputs, write_resolution, resolve_read, resolve,
}
use causal_continuity_engine.Invalidation.Settle.Bound.{preflight-IsChecked}
use causal_continuity_engine.Invalidation.Settle.Keeps.{Keeps, node_status}
use causal_continuity_engine.Invalidation.Settle.Held.{write_resolution-Keeps}

or_right : (a b : Bool) → b ≡ true → (a || b) ≡ true
or_right true b h = refl
or_right false b h = h

contains-append :
    (xs ys : List String) (a : String) → contains (xs ++ ys) a ≡ (contains xs a || contains ys a)
contains-append [] ys a = refl
contains-append (x ∷ xs) ys a = ground (arith, contains-append xs ys a)

module _ (host : Host) (engine : Engine host) (desk : Desk host) (now : host.Time) where
  held_by_all-contains :
      (excluded id : String) (other : NodeRow host) (p : NodeRow host → Bool)
      (rows : List (NodeRow host))
      → In other rows
      → p other ≡ true
      → (other.node_id == excluded) ≡ false
      → contains (held_by host engine desk now other) id ≡ true
      → contains (held_by_all host engine desk now excluded (filter p rows)) id ≡ true
  unfolding held_by_all
  held_by_all-contains excluded id other p [] i e d h = absurd i
  held_by_all-contains excluded id other p (x ∷ rows) (inl here) e d h =
      let held = held_by host engine desk now in
      let kept : p x ≡ true = ap p (sym here) ∙ e in
      let apart : (x.node_id == excluded) ≡ false =
        ap (λ (r : NodeRow host). r.node_id == excluded) (sym here) ∙ d in
      let holds : contains (held x) id ≡ true = ap (λ r. contains (held r) id) (sym here) ∙ h in
      let later = held_by_all host engine desk now excluded (filter p rows) in
      rw kept (rw apart (contains-append (held x) later id ∙ (rw holds refl)))
  held_by_all-contains excluded id other p (x ∷ rows) (inr i) e d h =
      let later = held_by_all-contains excluded id other p rows i e d h in
      elim (Bool-cases (p x)) [
        | inr out ↦ rw out later
        | inl kept ↦ elim (Bool-cases (x.node_id == excluded)) [
          | inl same ↦ rw kept (rw same later)
          | inr apart ↦
              let held = held_by host engine desk now x in
              let all = held_by_all host engine desk now excluded (filter p rows) in
              rw kept (rw apart (contains-append held all id ∙ or_right (contains held id) _ later))
        ]
      ]

  -- an open invalidation of the scope
  pub record IsHolder (inv other : NodeRow host) (db : Tables host) (id : String) : Type 0 where
    pub stored : In other db.nodes
    pub latest : is_null other.tx_to ≡ true
    pub kind : other.entity_type ≡ "invalidation"
    pub status : other.status ≡ some Status.opened
    pub project : other.project_id ≡ inv.project_id
    pub tenant : other.tenant_id ≡ tenant_or engine.tenant_id inv.tenant_id
    pub another : other.node_id ≢ inv.node_id
    pub holds : contains (held_by host engine desk now other) id ≡ true

  holder_selected :
      (inv other : NodeRow host) (db : Tables host) (id : String)
      → IsHolder inv other db id
      → is_selected host inv.project_id
          (some "invalidation")
          (some (Status.opened ∷ []))
          none
          (some (tenant_or engine.tenant_id inv.tenant_id))
          other
        ≡ true
  unfolding status_beq
  holder_selected inv other db id h =
      rw
        (
          h.latest,
          h.kind,
          h.status,
          h.project,
          h.tenant,
          ==_refl inv.project_id,
          ==_refl (tenant_or engine.tenant_id inv.tenant_id),
        )
        refl

  not_equal : (x y : String) → x ≢ y → (x == y) ≡ false
  not_equal x y h = elim (Bool-cases (x == y)) [ inl e ↦ absurd (h (==_sound x y e)) | inr e ↦ e ]

  -- the rows that `current` returns for open invalidations
  current-rows :
      (project_id tenant : String) (db : Tables host) (rows : List (NodeRow host))
      → current host project_id
          (some "invalidation")
          (some (Status.opened ∷ []))
          none
          (some tenant)
          db
        ≡ ok rows
      → rows
        ≡ filter
            (is_selected host project_id
              (some "invalidation")
              (some (Status.opened ∷ []))
              none
              (some tenant))
            db.nodes
  unfolding current status_beq
  current-rows project_id tenant db rows h =
      let (a, a', h1) =
        >>=-eq-ok (raise_if (not (is_public_identifier project_id)) value_error) _ h in
      let (b, b', h2) = >>=-eq-ok (raise_if (is_malformed_id (some tenant)) value_error) _ h1 in
      let selected =
        filter
          (is_selected host project_id (some "invalidation") (some (Status.opened ∷ [])) none
            (some tenant))
          db.nodes in
      let last : ok selected ≡ ok rows = h2 in sym (ok_injective selected rows last)

  nodes_held-contains :
      (inv other : NodeRow host) (db : Tables host) (id : String) (held : List String)
      → IsHolder inv other db id
      → nodes_held_by_others host engine desk now inv.project_id inv.node_id inv.tenant_id db
        ≡ ok held
      → contains held id ≡ true
  unfolding nodes_held_by_others current
  nodes_held-contains inv other db id held h read =
      let tenant = tenant_or engine.tenant_id inv.tenant_id in
      let listed =
        >>=-eq-ok
          (current host inv.project_id (some "invalidation") (some (Status.opened ∷ [])) none
            (some tenant) db)
          (λ rows. ok (held_by_all host engine desk now inv.node_id rows)) read in
      let rows = current-rows inv.project_id tenant db listed.0 listed.1 in
      let same = ok_injective _ _ listed.2 in
      let apart : (other.node_id == inv.node_id) ≡ false =
        not_equal other.node_id inv.node_id h.another in
      subst (λ l. contains l id ≡ true) same
        (subst (λ l. contains (held_by_all host engine desk now inv.node_id l) id ≡ true) (sym rows)
          (held_by_all-contains inv.node_id id other
            (is_selected host inv.project_id (some "invalidation") (some (Status.opened ∷ [])) none
              (some tenant))
            db.nodes h.stored (holder_selected inv other db id h) apart h.holds))

  module _ (names : Names) where
    resolve_read-Keeps :
        (own_id : String) (s : Settlement host engine desk names now) (db after : Tables host)
        (inv other out : NodeRow host) (id : String)
        → inv.node_id ≡ own_id
        → IsHolder inv other db id
        → id ≢ own_id
        → resolve_read host engine desk names now own_id s db inv ≡ ok (out, after)
        → Keeps host id db after
    unfolding resolve_read
    resolve_read-Keeps own_id s db after inv other out id named holder apart h =
        let (a, a', h1) =
          >>=-eq-ok (raise_if (is_unowned host engine desk now inv.tenant_id) permission_error) _
            h in
        let (b, b', h2) =
          >>=-eq-ok (raise_if (not (inv.entity_type == "invalidation")) resolution_input_error) _
            h1 in
        let (c, c', h3) =
          >>=-eq-ok
            (raise_if (not (is_one_of (Status.opened ∷ []) inv.status)) resolution_input_error) _
            h2 in
        let (p, checked, h4) = >>=-eq-ok (preflight host desk now inv db) _ h3 in
        let (replacement, d, h5) =
          >>=-eq-ok (resolution_inputs host engine desk names now inv p.target.node_id s db) _ h4 in
        let (held, listed, h6) =
          >>=-eq-ok
            (nodes_held_by_others host engine desk now inv.project_id own_id inv.tenant_id db) _
            h5 in
        let (t, wrote, h7) =
          >>=-eq-ok (write_resolution host engine desk names now inv own_id s p replacement held db)
            _ h6 in
        let (o, read, h8) =
          >>=-eq-ok
            (get host own_id (some inv.tenant_id) (some inv.project_id) (some "invalidation") t)
            (λ o. ok (o, t)) h7 in
        let same : t ≡ after =
          ap (λ (x : NodeRow host × Tables host). x.1) (ok_injective (o, t) (out, after) h8) in
        let (stored, facts) = preflight-IsChecked host desk now inv db p checked in
        let is_held = nodes_held-contains inv other db id held holder (
          subst
            (λ k.
              nodes_held_by_others host engine desk now inv.project_id k inv.tenant_id db ≡ ok held)
            (sym named) listed) in
        subst (Keeps host id db) same (
          write_resolution-Keeps host engine desk names now id held is_held inv own_id s p
            replacement db t apart facts.own wrote)

    -- Resolving an invalidation, by whatever mode, never changes the status of a node that another
    -- open invalidation of its project and tenant holds, as its target or by an impact, where the
    -- table of nodes is versioned and the node is not the resolved invalidation itself.
    pub resolve_keeps :
        (own_id : String) (s : Settlement host engine desk names now) (db after : Tables host)
        (inv other out : NodeRow host) (id : String)
        → IsVersioned host db.nodes
        → get host own_id engine.tenant_id none none db ≡ ok inv
        → IsHolder inv other db id
        → id ≢ own_id
        → resolve host engine desk names now own_id s db ≡ ok (out, after)
        → node_status host id after ≡ node_status host id db
    unfolding resolve
    resolve_keeps own_id s db after inv other out id v known holder apart h =
        let (a, a', h1) =
          >>=-eq-ok (raise_if (not (is_public_identifier own_id)) value_error) _ h in
        let (b, b', h2) =
          >>=-eq-ok (raise_if (is_malformed_id s.replacement_node_id) value_error) _ h1 in
        let (c, c', h3) = >>=-eq-ok (raise_if (is_malformed_id s.event_id) value_error) _ h2 in
        let (d, d', h4) =
          >>=-eq-ok (raise_if (not (engine.is_human_text s.actor)) value_error) _ h3 in
        let (e, e', h5) =
          >>=-eq-ok (raise_if (not (s.note == "") && not (engine.is_human_text s.note)) value_error)
            _ h4 in
        let (i, read, h6) =
          >>=-eq-ok (get host own_id engine.tenant_id none none db)
            (resolve_read host engine desk names now own_id s db) h5 in
        let same : i ≡ inv = ok_injective i inv (sym read ∙ known) in
        let run =
          subst (λ x. resolve_read host engine desk names now own_id s db x ≡ ok (out, after)) same
            h6 in
        (resolve_read-Keeps own_id s db after inv other out id
            (get-node_id host own_id engine.tenant_id none none db inv known) holder apart run).same
          v
