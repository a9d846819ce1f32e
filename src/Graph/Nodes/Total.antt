-- ===== src/Graph/Nodes/Total.antt =====
-- `put_node` of graph.py refuses only what its own checks refuse.
use causal_continuity_engine.Graph.Nodes.Written.{node_row-node_id}
use text.Mathlib.TextEquality.{eq_iff}
use causal_continuity_engine.Prelude.{
  suc, String, Bool, false, ◌&&◌, ◌==◌, string_eq, nat_eq, List, [], ◌∷◌, Option, none, some, any,
  In, ok, ◌≡◌, refl, ap, sym, ◌∙◌, inl, inr, arith, Bool-cases, ==_refl, ==_sound,
}
use causal_continuity_engine.Graph.Rows.{Host, NodeRow, Tables}
use causal_continuity_engine.Graph.Nodes.{
  NodeWrite, current_node, node_row, put_node, previous, get, written, target_id, new_row,
  changes_identity, is_taken, is_malformed_write, reopens_wrongly, require_event_scope, check_write,
  write_row,
}
use causal_continuity_engine.Graph.Nodes.Versions.{IsVersioned, node_row-tx_to, current-write_row}
use causal_continuity_engine.Graph.Nodes.Invariant.{IsFresh, previous-target}

any-none :
    {A : Type 0} (p : A → Bool) (xs : List A) → ((x : A) → In x xs → p x ≡ false) → any p xs ≡ false
any-none p [] h = refl
any-none p (x ∷ xs) h = ground (arith, h x (inl refl), any-none p xs (λ y i. h y (inr i)))

module _ (host : Host) where
  open host use {Time}

  -- what the write's row takes from the write
  node_row-fields :
      (w : NodeWrite host) (id : String) (now : Time) (prev : Option (NodeRow host))
      → ((node_row host w id now prev).entity_type ≡ w.entity_type)
        × ((node_row host w id now prev).tenant_id ≡ w.tenant_id)
        × ((node_row host w id now prev).project_id ≡ w.project_id)
  unfolding node_row
  node_row-fields w id now none = (refl, refl, refl)
  node_row-fields w id now (some p) = (refl, refl, refl)

  node_row-version :
      (w : NodeWrite host) (id : String) (now : Time) (c : NodeRow host)
      → (node_row host w id now (some c)).version ≡ suc c.version
  unfolding node_row
  node_row-version w id now c = refl

  unused_version :
      (w : NodeWrite host) (fresh : String) (now : Time) (db : Tables host)
      → IsVersioned host db.nodes
      → IsFresh host w fresh db.nodes
      → (r : NodeRow host) → In r db.nodes
      → (r.node_id == (new_row host w fresh now db).node_id
          && r.version == (new_row host w fresh now db).version)
        ≡ false
  unused_version w fresh now db v unused r i =
      let id = target_id host w fresh in
      let prev = previous host w db.nodes in
      let named = node_row-node_id host w id now prev in
      elim (Bool-cases (r.node_id == id)) [
        | inr other ↦ rw named (ground (arith, other))
        | inl same ↦
            let (c, found, below, kind, tenant, project) = v.topped r i in
            let at_id = ap (λ k. current_node host k db.nodes) (==_sound r.node_id id same) in
            let p : prev ≡ some c =
              previous-target host w fresh db.nodes unused ∙ (sym at_id ∙ found) in
            let higher : (new_row host w fresh now db).version ≡ suc c.version =
              ap (λ q. (node_row host w id now q).version) p ∙ node_row-version w id now c in
            ground (arith, higher, below)
      ]

  get-found :
      (id tenant_id project_id entity_type : String) (db : Tables host) (r : NodeRow host)
      → current_node host id db.nodes ≡ some r
      → r.tenant_id ≡ tenant_id
      → r.project_id ≡ project_id
      → r.entity_type ≡ entity_type
      → get host id (some tenant_id) (some project_id) (some entity_type) db ≡ ok r
  unfolding get
  get-found id tenant_id project_id entity_type db r found tenant project kind = ground (
    arith,
    eq_iff tenant_id r.tenant_id,
    eq_iff project_id r.project_id,
    eq_iff entity_type r.entity_type,
  )

  current-written_row :
      (w : NodeWrite host) (fresh : String) (now : Time) (db : Tables host)
      → IsVersioned host db.nodes
      → IsFresh host w fresh db.nodes
      → current_node host (target_id host w fresh) (written host w fresh now db).nodes
        ≡ some (new_row host w fresh now db)
  unfolding written
  current-written_row w fresh now db v unused =
      let id = target_id host w fresh in
      let new = new_row host w fresh now db in
      let prev = previous host w db.nodes in
      ap (λ p. current_node host id (write_row host now new p db.nodes))
        (previous-target host w fresh db.nodes unused)
      ∙ (current-write_row host now new id (node_row-node_id host w id now prev)
            (node_row-tx_to host w id now prev) id db.nodes (v.sole id)
          ∙ (rw (==_refl id) refl))

  -- In a versioned table, a write that names no used identifier as new is stored whenever the
  -- arguments are well formed, the event is of the scope, a reopening follows a closed interval and
  -- the identity is kept: the unique index and the final read refuse nothing.
  pub put_node_succeeds :
      (w : NodeWrite host) (fresh : String) (now : Time) (db : Tables host)
      → IsVersioned host db.nodes
      → IsFresh host w fresh db.nodes
      → is_malformed_write host w ≡ false
      → require_event_scope w.event_id w.tenant_id w.project_id db.events ≡ ok tt
      → reopens_wrongly host w (previous host w db.nodes) ≡ false
      → changes_identity host w (previous host w db.nodes) ≡ false
      → put_node host w fresh now db ≡ ok (new_row host w fresh now db, written host w fresh now db)
  unfolding put_node check_write
  put_node_succeeds w fresh now db v unused formed scoped reopens kept =
      let id = target_id host w fresh in
      let prev = previous host w db.nodes in
      let free : is_taken host (new_row host w fresh now db) db.nodes ≡ false =
        any-none _ db.nodes (unused_version w fresh now db v unused) in
      let (kind, tenant, project) = node_row-fields w id now prev in
      let read =
        get-found id w.tenant_id w.project_id w.entity_type (written host w fresh now db)
          (new_row host w fresh now db) (current-written_row w fresh now db v unused) tenant project
          kind in
      simp (formed, scoped, reopens, kept, free, read)
