-- ===== src/Graph/Edges/Ended.antt =====
-- What the readers of a node's edges in graph.py see of an edge that `end_edge` ended.
use causal_continuity_engine.Graph.Nodes.{is_malformed_time}
use text.Mathlib.TextEquality.{eq_iff}
use causal_continuity_engine.Prelude.{
  ℕ, ◌≤◌, String, Bool, true, false, not, string_eq, if◌then◌else◌, List, [], ◌∷◌, Option, none,
  some, In, In-append, In-filter, Result, ok, err, ◌>>=◌, ◌>>◌, raise_if, ◌≡◌, ◌≢◌, refl, ap, ◌∙◌,
  inl, inr, arith, Option-cases, subst, ◌⊎◌,
}
use causal_continuity_engine.Core.{is_public_identifier}
use causal_continuity_engine.Prelude.{value_error}
use causal_continuity_engine.Graph.Table.{
  close_current, live, live-close_current, not_current, current_row_sound,
}
use causal_continuity_engine.Graph.Rows.{Host, EdgeRow, Tables, ends_after, is_null}
use causal_continuity_engine.Graph.Edges.{
  edge_key, is_open_edge, current_edge, close_edge, write_edge, ended_row, end_edge,
  has_unknown_kind, reference_scope, selects_nothing,
}
use causal_continuity_engine.Graph.Adjacent.{edges_for, is_edge_for, selected_edges}

by_scope {ℓ} :
    {A : Type ℓ} {B : Type 0} (m : Result B) (u w v : Result (Unit {0})) (early : Bool) (f : B → A)
    (a b : A)
    → (u >> (w >> (v >> (if early then ok b else (m >>= λ x. ok (f x)))))) ≡ ok a
    → (a ≡ b) ⊎ ((x : B) × (a ≡ f x))
by_scope m u w v true f a b h = inl (ground arith)
by_scope (ok x) u w v false f a b h = inr (x, ground arith)
by_scope (err e) u w v false f a b h = absurd (ground arith)

module _ (host : Host) where
  open host use {Time, at_most}

  abbrev pub live_edges : String → List (EdgeRow host) → ℕ
  live_edges = live (edge_key host) (is_open_edge host)

  -- the edges after an accepted `end_edge`
  pub end_edge-edges :
      (id tenant_id project_id : String) (event_id : Option String) (valid_to : Option Time)
      (now : Time) (db db' : Tables host)
      → end_edge host id tenant_id project_id event_id valid_to now db ≡ ok db'
      → (p : EdgeRow host) × (current_edge host id db.edges ≡ some p)
        × (db'.edges
            ≡ write_edge host now (ended_row host valid_to event_id now p) (some p) db.edges)
  unfolding end_edge
  end_edge-edges id tenant_id project_id event_id valid_to now db db' h =
      elim (Option-cases (current_edge host id db.edges)) [
        | inl e ↦ absurd (ground arith)
        | inr (p, e) ↦ (p, e, ground arith)
      ]

  -- in the written table, only the ended row carries the identifier and is open
  open_after :
      (id : String) (now : Time) (new p : EdgeRow host) (rows : List (EdgeRow host))
      (r : EdgeRow host)
      → live_edges id rows ≤ 1
      → new.edge_id ≡ id
      → In r (write_edge host now new (some p) rows)
      → r.edge_id ≡ id
      → is_null r.tx_to ≡ true
      → r ≡ new
  unfolding write_edge
  open_after id now new p rows r sole named i same null =
      elim (In-append
        (close_current (edge_key host) (is_open_edge host) (close_edge host now) new.edge_id rows)
        (new ∷ []) r i) [
          | inr j ↦ elim j [ inl e ↦ e | inr nowhere ↦ absurd nowhere ]
          | inl j ↦ absurd (
              ground (
                arith,
                not_current (edge_key host) (is_open_edge host) id
                    (close_current (edge_key host) (is_open_edge host) (close_edge host now)
                      new.edge_id rows)
                    r,
                live-close_current (edge_key host) (is_open_edge host) (close_edge host now)
                    (λ x. refl) (λ x. refl) new.edge_id id rows,
                eq_iff r.edge_id id,
                eq_iff id new.edge_id,
                j,
              ))
        ]

  -- the time that a caller gave, or the clock
  abbrev pub at_or : Option Time → Time → Time
  at_or given now = elim given [ none ↦ now | some t ↦ t ]

  ended_row-hidden :
      (valid_to : Option Time) (event_id : Option String) (now t : Time) (p : EdgeRow host)
      → at_most (at_or valid_to now) t ≡ true
      → ends_after host (ended_row host valid_to event_id now p).valid_to t ≡ false
  unfolding ended_row
  ended_row-hidden valid_to event_id now t p h = ground arith

  pub edges_for-selected :
      (ends : EdgeRow host → String × String) (node : String) (kinds : Option (List String))
      (valid_at : Option Time) (now : Time) (db : Tables host) (rows : List (EdgeRow host))
      → edges_for host ends node kinds valid_at now db ≡ ok rows
      → (anchor : Option (String × String)) × (rows
          ≡ selected_edges host ends node kinds (at_or valid_at now) db anchor)
  unfolding edges_for
  edges_for-selected ends node kinds valid_at now db rows h =
      elim (by_scope (reference_scope host node db)
        (raise_if (not (is_public_identifier node)) value_error)
        (raise_if (is_malformed_time host valid_at) value_error)
        (raise_if (has_unknown_kind kinds) value_error) (selects_nothing kinds)
        (λ a. selected_edges host ends node kinds (at_or valid_at now) db a) rows [] h) [
          | inl nothing ↦ (none, nothing)
          | inr found ↦ (found.0, found.1)
        ]

  -- what a selected row satisfies
  In-selected_edges :
      (ends : EdgeRow host → String × String) (node : String) (kinds : Option (List String))
      (now : Time) (db : Tables host) (anchor : Option (String × String)) (r : EdgeRow host)
      → In r (selected_edges host ends node kinds now db anchor)
      → In r db.edges × (is_null r.tx_to ≡ true) × (ends_after host r.valid_to now ≡ true)
  In-selected_edges ends node kinds now db none r i = elim i [ ]
  In-selected_edges ends node kinds now db (some scope) r i =
      let (kept, test) = In-filter (is_edge_for host ends node scope kinds now db) db.edges r i in
      (kept, ground arith, ground arith)

  ended_row-edge_id :
      (valid_to : Option Time) (event_id : Option String) (now : Time) (p : EdgeRow host)
      → (ended_row host valid_to event_id now p).edge_id ≡ p.edge_id
  unfolding ended_row
  ended_row-edge_id valid_to event_id now p = refl

  -- Let an edge have at most one open row, and let `end_edge` accept to end it, at `valid_to` or, where
  -- none is given, at the clock. In the tables that it leaves, no node's edges include that edge for a
  -- reader of that time or later, which is the reader's `valid_at` or, where none is given, the
  -- reader's clock; whatever the node, the direction and the edge types asked for.
  pub edges_for-end_edge :
      (id tenant_id project_id : String) (event_id : Option String)
      (valid_to valid_at : Option Time) (now later : Time) (db db' : Tables host)
      (ends : EdgeRow host → String × String) (node : String) (kinds : Option (List String))
      (rows : List (EdgeRow host)) (r : EdgeRow host)
      → live_edges id db.edges ≤ 1
      → end_edge host id tenant_id project_id event_id valid_to now db ≡ ok db'
      → at_most (at_or valid_to now) (at_or valid_at later) ≡ true
      → edges_for host ends node kinds valid_at later db' ≡ ok rows
      → In r rows
      → r.edge_id ≢ id
  edges_for-end_edge id tenant_id project_id event_id valid_to valid_at now later db db' ends node
        kinds rows r sole h after read i same =
      let t = at_or valid_at later in
      let (anchor, e) = edges_for-selected ends node kinds valid_at later db' rows read in
      let (kept, null, shown) =
        In-selected_edges ends node kinds t db' anchor r (subst (In r) e i) in
      let (p, found, written) =
        end_edge-edges id tenant_id project_id event_id valid_to now db db' h in
      let named = (current_row_sound (edge_key host) (is_open_edge host) id db.edges p found).1 in
      let last =
        open_after id now (ended_row host valid_to event_id now p) p db.edges r sole
          (ended_row-edge_id valid_to event_id now p ∙ named) (subst (In r) written kept) same
          null in
      let hidden = ended_row-hidden valid_to event_id now t p after in
      cc (ap (λ (x : EdgeRow host). ends_after host x.valid_to t) last)
