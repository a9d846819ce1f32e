-- ===== src/Graph/Nodes/Versions.antt =====
-- The versions of a node of graph.py: one open row for each node, above all the others.
use text.Mathlib.TextEquality.{eq_iff}
use causal_continuity_engine.Prelude.{
  ℕ, ◌≤◌, String, ◌==◌, string_eq, nat_eq, if◌then◌else◌, List, [], ◌∷◌, Option, none, some, In,
  In-append, ◌≡◌, refl, ◌⊎◌, inl, inr, arith, Option-cases,
}
use causal_continuity_engine.Graph.Table.{
  current_row, close_current, live, live-append, current_row-none, live-zero, current_row-append,
  current_row_sound, live-close_current, current_row-close_current, In-close_current,
}
use causal_continuity_engine.Graph.Rows.{Host, NodeRow}
use causal_continuity_engine.Graph.Nodes.{
  NodeWrite, node_key, is_open_node, current_node, close_node, node_row, write_row,
}

module _ (host : Host) where
  open host use {Time}

  abbrev pub live_nodes : String → List (NodeRow host) → ℕ
  live_nodes = live (node_key host) (is_open_node host)

  pub node_row-tx_to :
      (w : NodeWrite host) (id : String) (now : Time) (prev : Option (NodeRow host))
      → (node_row host w id now prev).tx_to ≡ none
  unfolding node_row
  node_row-tx_to w id now none = refl
  node_row-tx_to w id now (some p) = refl

  -- one row of an open version
  live-new :
      (j : String) (new : NodeRow host)
      → new.tx_to ≡ none
      → live_nodes j (new ∷ []) ≡ (if new.node_id == j then 1 else 0)
  unfolding live
  live-new j new e = ground arith

  current-new :
      (j : String) (new : NodeRow host)
      → new.tx_to ≡ none
      → current_node host j (new ∷ []) ≡ (if new.node_id == j then some new else none)
  unfolding current_row
  current-new j new e = ground arith

  module _ (now : Time) (new : NodeRow host) (id : String) (named : new.node_id ≡ id)
      (null : new.tx_to ≡ none) where
    pub live-write_row :
        (j : String) (rows : List (NodeRow host))
        → live_nodes id rows ≤ 1
        → live_nodes j (write_row host now new (current_node host id rows) rows)
          ≡ (if j == id then 1 else live_nodes j rows)
    unfolding write_row
    live-write_row j rows sole = elim (Option-cases (current_node host id rows)) [
      | inl e ↦ rw e (
          ground (
            arith,
            live-append (node_key host) (is_open_node host) j rows (new ∷ []),
            live-new j new null,
            live-zero (node_key host) (is_open_node host) id rows e,
            eq_iff j id,
            eq_iff new.node_id j,
          ))
      | inr (p, e) ↦ rw e (
          ground (
            arith,
            live-append (node_key host) (is_open_node host) j
                (close_current (node_key host) (is_open_node host) (close_node host now) new.node_id
                  rows)
                (new ∷ []),
            live-close_current (node_key host) (is_open_node host) (close_node host now) (λ r. refl)
                (λ r. refl) new.node_id j rows,
            live-new j new null,
            eq_iff j id,
            eq_iff j new.node_id,
            eq_iff new.node_id j,
          ))
    ]

    pub current-write_row :
        (j : String) (rows : List (NodeRow host))
        → live_nodes id rows ≤ 1
        → current_node host j (write_row host now new (current_node host id rows) rows)
          ≡ (if j == id then some new else current_node host j rows)
    unfolding write_row
    current-write_row j rows sole = elim (Option-cases (current_node host id rows)) [
      | inl e ↦ rw e (
          ground (
            arith,
            current_row-append (node_key host) (is_open_node host) j rows (new ∷ []),
            current-new j new null,
            eq_iff j id,
            eq_iff new.node_id j,
          ))
      | inr (p, e) ↦ rw e (
          let closed =
            close_current (node_key host) (is_open_node host) (close_node host now) new.node_id
              rows in
          ground (
            arith,
            current_row-append (node_key host) (is_open_node host) j closed (new ∷ []),
            current_row-close_current (node_key host) (is_open_node host) (close_node host now)
                (λ r. refl) (λ r. refl) new.node_id j rows,
            current_row-none (node_key host) (is_open_node host) j closed,
            live-close_current (node_key host) (is_open_node host) (close_node host now) (λ r. refl)
                (λ r. refl) new.node_id j rows,
            current-new j new null,
            eq_iff j id,
            eq_iff j new.node_id,
            eq_iff new.node_id j,
          ))
    ]

  -- a row of the written table is the new one, an old one, or an old one closed
  pub In-write_row :
      (now : Time) (new : NodeRow host) (prev : Option (NodeRow host)) (rows : List (NodeRow host))
      (x : NodeRow host)
      → In x (write_row host now new prev rows)
      → (x ≡ new) ⊎ ((r : NodeRow host) × (In r rows) × ((x ≡ r) ⊎ (x ≡ close_node host now r)))
  unfolding write_row
  In-write_row now new none rows x h = elim (In-append rows (new ∷ []) x h) [
    | inl i ↦ inr (x, i, inl refl)
    | inr i ↦ elim i [ inl e ↦ inl e | inr nowhere ↦ absurd nowhere ]
  ]
  In-write_row now new (some p) rows x h =
      let keyed = node_key host in
      let shut = is_open_node host in
      elim (In-append (close_current keyed shut (close_node host now) new.node_id rows) (new ∷ []) x
        h) [
          | inr i ↦ elim i [ inl e ↦ inl e | inr nowhere ↦ absurd nowhere ]
          | inl i ↦
              elim (In-close_current keyed shut (close_node host now) (λ r. refl) (λ r. refl)
                new.node_id rows x i) [
                  | inl old ↦ inr (x, old, inl refl)
                  | inr (r, found, e) ↦
                      inr (r, (current_row_sound keyed shut new.node_id rows r found).0, inr e)
                ]
        ]

  -- Every node has one open row at most, and an open row of the same identity that is not older than
  -- any of its rows.
  pub record IsVersioned (rows : List (NodeRow host)) : Type 0 where
    pub sole : (id : String) → live_nodes id rows ≤ 1
    pub topped :
        (r : NodeRow host)
        → In r rows
        → (c : NodeRow host) × (current_node host r.node_id rows ≡ some c)
          × (r.version ≤ c.version)
          × (r.entity_type ≡ c.entity_type)
          × (r.tenant_id ≡ c.tenant_id)
          × (r.project_id ≡ c.project_id)
