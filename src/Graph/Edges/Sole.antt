-- ===== src/Graph/Edges/Sole.antt =====
-- Edge writes of graph.py keep one open row of an edge at most.
use text.Mathlib.TextEquality.{eq_iff}
use causal_continuity_engine.Graph.Edges.Ended.{live_edges, end_edge-edges}
use causal_continuity_engine.Prelude.{
  String, not, ◌||◌, ◌==◌, string_eq, Option, none, some, ok, err, raise_if, >>=-eq-ok, value_error,
  integrity_error, type_error, ◌≡◌, refl, ap, sym, ◌∙◌, inl, inr, arith, subst, Option-cases, Error,
  ◌≤◌, List, ◌∷◌, [], if◌then◌else◌,
}
use causal_continuity_engine.Graph.Rows.{Host, Tables}
use causal_continuity_engine.Graph.Table.{
  current_row_sound, live, live-append, live-zero, live-pos, live-close_current, close_current,
}
use causal_continuity_engine.Graph.Nodes.{require_event_scope}
use causal_continuity_engine.Graph.Edges.{
  EdgeWrite, put_edge, is_malformed_edge, reference_scope, previous_edge, known_edge, edge_row,
  is_scope, changes_relation, is_taken_edge, current_edge, write_edge, edge_key, is_open_edge,
  close_edge, end_edge, ended_row,
}
use causal_continuity_engine.Graph.Rows.{EdgeRow}

answered :
    {A B : Type 0} (o : Option A) (e : Error) (t : B) (p : A × B)
    → (elim o [ none ↦ err e | some a ↦ ok (a, t) ]) ≡ ok p
    → p.1 ≡ t
answered none e t p h = absurd (ground arith)
answered (some a) e t p h = ground arith

module _ (host : Host) where
  open host use {Time}

  -- the edge that `put_edge` writes, and its row
  abbrev edge_id : EdgeWrite host → String → Tables host → String
  edge_id w fresh db = elim (known_edge host w db.edges) [ none ↦ fresh | some given ↦ given ]

  abbrev row : EdgeWrite host → String → Time → Tables host → EdgeRow host
  row w fresh now db =
      edge_row host w (edge_id w fresh db) now
        (previous_edge host (known_edge host w db.edges) db.edges)

  -- the tables after an accepted `put_edge`
  pub put_edge-edges :
      (w : EdgeWrite host) (fresh : String) (now : Time) (db after : Tables host) (r : EdgeRow host)
      → put_edge host w fresh now db ≡ ok (r, after)
      → after ≡ record db {
        edges =
            write_edge host now
              (row w fresh now db)
              (previous_edge host (known_edge host w db.edges) db.edges)
              db.edges;
      }
  unfolding put_edge
  put_edge-edges w fresh now db after r h =
      let (u, a, h1) = >>=-eq-ok (raise_if (is_malformed_edge host w) value_error) _ h in
      let (v, b, h2) =
        >>=-eq-ok (require_event_scope w.event_id w.tenant_id w.project_id db.events) _ h1 in
      let (src, c, h3) = >>=-eq-ok (reference_scope host w.src_id db) _ h2 in
      let (dst, d, h4) = >>=-eq-ok (reference_scope host w.dst_id db) _ h3 in
      let prev = previous_edge host (known_edge host w db.edges) db.edges in
      let id : String = elim (known_edge host w db.edges) [ none ↦ fresh | some given ↦ given ] in
      let new = edge_row host w id now prev in
      let (x, e, h5) =
        >>=-eq-ok
          (raise_if
            (not (is_scope host src w.tenant_id w.project_id)
              || not (is_scope host dst w.tenant_id w.project_id))
            value_error)
          _ h4 in
      let (y, f, h6) = >>=-eq-ok (raise_if (changes_relation host w prev) value_error) _ h5 in
      let (z, g, h7) =
        >>=-eq-ok (raise_if (is_taken_edge host new db.edges) integrity_error) _ h6 in
      answered (current_edge host id (write_edge host now new prev db.edges)) type_error
        (record db { edges = write_edge host now new prev db.edges }) (r, after) h7

  live-new :
      (j : String) (new : EdgeRow host)
      → new.tx_to ≡ none
      → live_edges host j (new ∷ []) ≡ (if new.edge_id == j then 1 else 0)
  unfolding live
  live-new j new e = ground arith

  live-write_edge :
      (now : Time) (new : EdgeRow host) (id j : String) (rows : List (EdgeRow host))
      → new.edge_id ≡ id
      → new.tx_to ≡ none
      → live_edges host id rows ≤ 1
      → live_edges host j (write_edge host now new (current_edge host id rows) rows)
        ≡ (if j == id then 1 else live_edges host j rows)
  unfolding write_edge
  live-write_edge now new id j rows named null sole =
      elim (Option-cases (current_edge host id rows)) [
        | inl e ↦ rw e (
            ground (
              arith,
              live-append (edge_key host) (is_open_edge host) j rows (new ∷ []),
              live-new j new null,
              live-zero (edge_key host) (is_open_edge host) id rows e,
              eq_iff j id,
              eq_iff new.edge_id j,
            ))
        | inr (p, e) ↦ rw e (
            ground (
              arith,
              live-append (edge_key host) (is_open_edge host) j
                  (close_current (edge_key host) (is_open_edge host) (close_edge host now)
                    new.edge_id rows)
                  (new ∷ []),
              live-close_current (edge_key host) (is_open_edge host) (close_edge host now)
                  (λ r. refl) (λ r. refl) new.edge_id j rows,
              live-new j new null,
              live-pos (edge_key host) (is_open_edge host) id rows p e,
              eq_iff j id,
              eq_iff j new.edge_id,
              eq_iff new.edge_id j,
            ))
      ]

  -- every edge has one open row at most
  abbrev pub IsSole : List (EdgeRow host) → Type 0
  IsSole rows = (id : String) → live_edges host id rows ≤ 1

  write_edge-IsSole :
      (now : Time) (new : EdgeRow host) (id : String) (rows : List (EdgeRow host))
      → new.edge_id ≡ id
      → new.tx_to ≡ none
      → IsSole rows
      → IsSole (write_edge host now new (current_edge host id rows) rows)
  write_edge-IsSole now new id rows named null sole j =
      ground (arith, live-write_edge now new id j rows named null (sole id), sole j)

  -- In the table of edges every edge keeps one open row at most: an accepted `end_edge` keeps it so.
  pub end_edge-IsSole :
      (id tenant_id project_id : String) (event_id : Option String) (valid_to : Option Time)
      (now : Time) (db after : Tables host)
      → IsSole db.edges
      → end_edge host id tenant_id project_id event_id valid_to now db ≡ ok after
      → IsSole after.edges
  unfolding ended_row
  end_edge-IsSole id tenant_id project_id event_id valid_to now db after sole h =
      let (p, found, wrote) =
        end_edge-edges host id tenant_id project_id event_id valid_to now db after h in
      let named = (current_row_sound (edge_key host) (is_open_edge host) id db.edges p found).1 in
      let kept =
        write_edge-IsSole now (ended_row host valid_to event_id now p) id db.edges named refl
          sole in
      subst IsSole
        (sym (
          wrote
          ∙ ap (λ o. write_edge host now (ended_row host valid_to event_id now p) o db.edges)
              (sym found)))
        kept

  -- the identifier that `new_id` returns is not in use
  abbrev pub IsUnused : EdgeWrite host → String → Tables host → Type 0
  IsUnused w fresh db = known_edge host w db.edges ≡ none → current_edge host fresh db.edges ≡ none

  previous-named :
      (known : Option String) (fresh : String) (rows : List (EdgeRow host))
      → (known ≡ none → current_edge host fresh rows ≡ none)
      → previous_edge host known rows
        ≡ current_edge host (elim known [ none ↦ fresh | some given ↦ given ]) rows
  previous-named none fresh rows unused = sym (unused refl)
  previous-named (some id) fresh rows unused = refl

  previous-edge_id :
      (w : EdgeWrite host) (fresh : String) (db : Tables host)
      → IsUnused w fresh db
      → previous_edge host (known_edge host w db.edges) db.edges
        ≡ current_edge host (edge_id w fresh db) db.edges
  previous-edge_id w fresh db unused =
      previous-named (known_edge host w db.edges) fresh db.edges unused

  row-edge_id :
      (w : EdgeWrite host) (fresh : String) (now : Time) (db : Tables host)
      → (row w fresh now db).edge_id ≡ edge_id w fresh db
  unfolding edge_row
  row-edge_id w fresh now db = refl

  row-tx_to :
      (w : EdgeWrite host) (fresh : String) (now : Time) (db : Tables host)
      → (row w fresh now db).tx_to ≡ none
  unfolding edge_row
  row-tx_to w fresh now db = refl

  -- In the table of edges every edge keeps one open row at most: an accepted `put_edge` keeps it so,
  -- where a generated identifier is not in use.
  pub put_edge-IsSole :
      (w : EdgeWrite host) (fresh : String) (now : Time) (db after : Tables host) (r : EdgeRow host)
      → IsSole db.edges
      → IsUnused w fresh db
      → put_edge host w fresh now db ≡ ok (r, after)
      → IsSole after.edges
  put_edge-IsSole w fresh now db after r sole unused h =
      let id = edge_id w fresh db in
      let wrote =
        ap (λ (t : Tables host). t.edges) (put_edge-edges w fresh now db after r h)
        ∙ ap (λ p. write_edge host now (row w fresh now db) p db.edges)
            (previous-edge_id w fresh db unused) in
      subst IsSole (sym wrote) (
        write_edge-IsSole now (row w fresh now db) id db.edges (row-edge_id w fresh now db)
          (row-tx_to w fresh now db) sole)
