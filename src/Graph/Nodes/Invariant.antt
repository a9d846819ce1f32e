-- ===== src/Graph/Nodes/Invariant.antt =====
-- `put_node` of graph.py keeps the versions in order, and is a write to a map of nodes.
use text.Mathlib.TextEquality.{eq_iff}
use causal_continuity_engine.Prelude.{
  suc, ◌≤◌, String, false, ◌==◌, string_eq, nat_eq, if◌then◌else◌, List, Option, none, some, In, ok,
  ◌≡◌, refl, ap, sym, ◌∙◌, inl, inr, arith, Bool-cases, ==_refl, ==_sound,
}
use causal_continuity_engine.Prelude.{subst}
use causal_continuity_engine.Graph.Rows.{Host, NodeRow, Tables}
use causal_continuity_engine.Graph.Nodes.{
  NodeWrite, current_node, node_row, write_row, put_node, previous, get, written, target_id,
  new_row, changes_identity,
}
use causal_continuity_engine.Graph.Nodes.Written.{
  Accepted, Written, put_node-Written, node_row-node_id,
}
use causal_continuity_engine.Graph.Nodes.Versions.{
  live-write_row, current-write_row, In-write_row, node_row-tx_to, IsVersioned,
}

module _ (host : Host) where
  open host use {Time}

  -- the second row continues the node of the first
  pub record Follows (c new : NodeRow host) : Type 0 where
    pub version : new.version ≡ suc c.version
    pub entity_type : c.entity_type ≡ new.entity_type
    pub tenant_id : c.tenant_id ≡ new.tenant_id
    pub project_id : c.project_id ≡ new.project_id

  node_row-Follows :
      (w : NodeWrite host) (id : String) (now : Time) (c : NodeRow host)
      → changes_identity host w (some c) ≡ false
      → Follows c (node_row host w id now (some c))
  unfolding node_row
  node_row-Follows w id now c h = ground (
    arith,
    eq_iff w.entity_type c.entity_type,
    eq_iff w.tenant_id c.tenant_id,
    eq_iff w.project_id c.project_id,
  )

  module _ (now : Time) (new : NodeRow host) (id : String) (named : new.node_id ≡ id)
      (null : new.tx_to ≡ none) (rows : List (NodeRow host)) (v : IsVersioned host rows)
      (follows : (c : NodeRow host) → current_node host id rows ≡ some c → Follows c new) where
    abbrev after : List (NodeRow host)
    after = write_row host now new (current_node host id rows) rows

    current-after :
        (j : String)
        → current_node host j after ≡ (if j == id then some new else current_node host j rows)
    current-after j = current-write_row host now new id named null j rows (v.sole id)

    abbrev Topped : NodeRow host → Type 0
    Topped r =
        (c : NodeRow host) × (current_node host r.node_id after ≡ some c)
        × (r.version ≤ c.version)
        × (r.entity_type ≡ c.entity_type)
        × (r.tenant_id ≡ c.tenant_id)
        × (r.project_id ≡ c.project_id)

    Topped-new : Topped new
    Topped-new = (
      new,
      current-after new.node_id ∙ (rw (named, ==_refl id) refl),
      omega arith,
      refl,
      refl,
      refl,
    )

    Topped-old : (r : NodeRow host) → In r rows → Topped r
    Topped-old r i =
        let (c, found, below, kind, tenant, project) = v.topped r i in
        elim (Bool-cases (r.node_id == id)) [
          | inl same ↦
              let here = ==_sound r.node_id id same in
              let f = follows c (rw (← here) found) in
              (
                new,
                current-after r.node_id ∙ (rw same refl),
                omega (arith, f.version),
                kind ∙ f.entity_type,
                tenant ∙ f.tenant_id,
                project ∙ f.project_id,
              )
          | inr other ↦
              (c, current-after r.node_id ∙ (rw other found), below, kind, tenant, project)
        ]

    write_row-IsVersioned : IsVersioned host after
    write_row-IsVersioned = record {
      sole = λ j.
          (rw (live-write_row host now new id named null j rows (v.sole id))
            (ground (arith, v.sole j)));
      topped = λ x i. elim (In-write_row host now new (current_node host id rows) rows x i) [
        | inl e ↦ rw e Topped-new
        | inr (r, old, inl e) ↦ rw e (Topped-old r old)
        | inr (r, old, inr e) ↦ rw e (Topped-old r old)
      ];
    }

  -- the identifier that `new_id` returns is not in use
  abbrev pub IsFresh : NodeWrite host → String → List (NodeRow host) → Type 0
  IsFresh w fresh rows = w.node_id ≡ none → current_node host fresh rows ≡ none

  pub previous-target :
      (w : NodeWrite host) (fresh : String) (rows : List (NodeRow host))
      → IsFresh w fresh rows
      → previous host w rows ≡ current_node host (target_id host w fresh) rows
  previous-target w fresh rows h = ground (arith, h)

  Follows-previous :
      (w : NodeWrite host) (fresh : String) (now : Time) (db : Tables host)
      → IsFresh w fresh db.nodes
      → Accepted host w fresh now db
      → (c : NodeRow host) → current_node host (target_id host w fresh) db.nodes ≡ some c
      → Follows c (new_row host w fresh now db)
  Follows-previous w fresh now db unused passed c e =
      let p : previous host w db.nodes ≡ some c = previous-target w fresh db.nodes unused ∙ e in
      rw p (node_row-Follows w (target_id host w fresh) now c (rw p at passed.identity))

  -- the written table, by the current row of the target
  abbrev table_after : NodeWrite host → String → Time → Tables host → List (NodeRow host)
  table_after w fresh now db =
      write_row host now (new_row host w fresh now db)
        (current_node host (target_id host w fresh) db.nodes) db.nodes

  nodes-Written :
      (w : NodeWrite host) (fresh : String) (now : Time) (db db' : Tables host)
      (stored : NodeRow host)
      → IsFresh w fresh db.nodes
      → Written host w fresh now db db' stored
      → db'.nodes ≡ table_after w fresh now db
  unfolding written
  nodes-Written w fresh now db db' stored unused wrote =
      ap (λ (d : Tables host). d.nodes) wrote.result
      ∙ ap (λ p. write_row host now (new_row host w fresh now db) p db.nodes)
          (previous-target w fresh db.nodes unused)

  -- An accepted write with a fresh identifier, where a new one is needed, keeps the table versioned:
  -- each node has one open row at most, its newest, and all its rows have one identity.
  pub put_node-IsVersioned :
      (w : NodeWrite host) (fresh : String) (now : Time) (db db' : Tables host)
      (stored : NodeRow host)
      → IsVersioned host db.nodes
      → IsFresh w fresh db.nodes
      → put_node host w fresh now db ≡ ok (stored, db')
      → IsVersioned host db'.nodes
  put_node-IsVersioned w fresh now db db' stored v unused h =
      let wrote = put_node-Written host w fresh now db db' stored h in
      let id = target_id host w fresh in
      subst (IsVersioned host) (sym (nodes-Written w fresh now db db' stored unused wrote)) (
        write_row-IsVersioned now (new_row host w fresh now db) id
          (node_row-node_id host w id now _) (node_row-tx_to host w id now _) db.nodes v
          (Follows-previous w fresh now db unused wrote.accepted))

  current-Written :
      (w : NodeWrite host) (fresh : String) (now : Time) (db db' : Tables host)
      (stored : NodeRow host) (id : String)
      → IsVersioned host db.nodes
      → IsFresh w fresh db.nodes
      → Written host w fresh now db db' stored
      → current_node host id db'.nodes ≡ (
          if id == target_id host w fresh
          then some (new_row host w fresh now db)
          else current_node host id db.nodes)
  current-Written w fresh now db db' stored id v unused wrote =
      let named = target_id host w fresh in
      ap (current_node host id) (nodes-Written w fresh now db db' stored unused wrote)
      ∙ current-write_row host now (new_row host w fresh now db) named
          (node_row-node_id host w named now _) (node_row-tx_to host w named now _) id db.nodes
          (v.sole named)

  pub get-stored :
      (id : String) (tenant_id project_id entity_type : Option String) (db : Tables host)
      (r stored : NodeRow host)
      → get host id tenant_id project_id entity_type db ≡ ok stored
      → current_node host id db.nodes ≡ some r
      → stored ≡ r
  unfolding get
  get-stored id tenant_id project_id entity_type db r stored h e = ground arith

  -- To its readers the table is a map from node identifiers to rows, and an accepted write updates
  -- it at one key: the node written has the new version, which the write returns, and no other node
  -- changes.
  pub put_node-refines :
      (w : NodeWrite host) (fresh : String) (now : Time) (db db' : Tables host)
      (stored : NodeRow host)
      → IsVersioned host db.nodes
      → IsFresh w fresh db.nodes
      → put_node host w fresh now db ≡ ok (stored, db')
      → (stored ≡ new_row host w fresh now db)
        × ((id : String)
            → current_node host id db'.nodes ≡ (
                if id == target_id host w fresh
                then some stored
                else current_node host id db.nodes))
  put_node-refines w fresh now db db' stored v unused h =
      let wrote = put_node-Written host w fresh now db db' stored h in
      let id = target_id host w fresh in
      let new = new_row host w fresh now db in
      let here : current_node host id db'.nodes ≡ some new =
        current-Written w fresh now db db' stored id v unused wrote ∙ (rw (==_refl id) refl) in
      let same =
        get-stored id (some w.tenant_id) (some w.project_id) (some w.entity_type) db' new stored
          wrote.answer here in
      (same, λ j. rw same (current-Written w fresh now db db' stored j v unused wrote))
