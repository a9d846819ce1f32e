-- ===== src/Graph/Nodes/Beliefs.antt =====
-- What a write of graph.py leaves of the past: nothing that was recorded changes.
use causal_continuity_engine.Prelude.{
  String, true, false, not, ◌&&◌, ◌==◌, string_eq, List, [], ◌∷◌, ◌++◌, map, Option, none, some,
  filter, filter-append, Result, ok, err, ◌>>◌, raise_if, ◌≡◌, refl, ap, ◌∙◌, arith, append-nil,
  value_error,
}
use causal_continuity_engine.Core.{is_public_identifier}
use causal_continuity_engine.Graph.Table.{close_current, filter-close_current}
use causal_continuity_engine.Graph.Rows.{Host, NodeRow, Tables, ends_after, is_null}
use causal_continuity_engine.Graph.Nodes.Written.{put_node-Written, node_row-tx_from}
use causal_continuity_engine.Graph.Nodes.{
  new_row, written, target_id, is_malformed_id, is_unknown_type, NodeWrite, node_key, is_open_node,
  close_node, write_row, put_node, previous, differs,
}
use causal_continuity_engine.Graph.Reads.{is_believed, as_of}

module _ (host : Host) where
  open host use {Time, at_most, is_datetime}

  -- a row without the time at which it was replaced
  abbrev pub content : NodeRow host → NodeRow host
  content r = record r { tx_to = none }

  -- what was believed, and to what extent
  unfoldable pub believed :
      String → Option String → Option String → Time → List (NodeRow host) → List (NodeRow host)
  believed project_id entity_type tenant_id t rows =
      map content (filter (is_believed host project_id entity_type tenant_id t) rows)

  ends_after-null :
      (o : Option Time) (now t : Time)
      → is_null o ≡ true
      → at_most now t ≡ false
      → not (at_most now t) ≡ ends_after host o t
  ends_after-null none now t null later = ground arith
  ends_after-null (some to) now t null later = cc

  -- closing a row now does not show at an earlier time
  is_believed-close_node :
      (project_id : String) (entity_type tenant_id : Option String) (t now : Time)
      (r : NodeRow host)
      → at_most now t ≡ false
      → is_open_node host r ≡ true
      → is_believed host project_id entity_type tenant_id t (close_node host now r)
        ≡ is_believed host project_id entity_type tenant_id t r
  is_believed-close_node project_id entity_type tenant_id t now r later null =
      ap
        (λ b.
          r.project_id == project_id
          && (at_most r.tx_from t && b)
          && not (differs tenant_id r.tenant_id)
          && not (differs entity_type r.entity_type))
        (ends_after-null r.tx_to now t null later)

  believed-close_current :
      (project_id : String) (entity_type tenant_id : Option String) (t now : Time) (id : String)
      (rows : List (NodeRow host))
      → at_most now t ≡ false
      → believed project_id entity_type tenant_id t
          (close_current (node_key host) (is_open_node host) (close_node host now) id rows)
        ≡ believed project_id entity_type tenant_id t rows
  unfolding believed
  believed-close_current project_id entity_type tenant_id t now id rows later =
      filter-close_current (node_key host) (is_open_node host) content
        (is_believed host project_id entity_type tenant_id t) (close_node host now) id rows
        (λ r. refl)
        (λ r null. is_believed-close_node project_id entity_type tenant_id t now r later null)

  hidden_row :
      (project_id : String) (entity_type tenant_id : Option String) (t : Time) (r : NodeRow host)
      → at_most r.tx_from t ≡ false
      → is_believed host project_id entity_type tenant_id t r ≡ false
  hidden_row project_id entity_type tenant_id t r later = ground arith

  believed-append_new :
      (project_id : String) (entity_type tenant_id : Option String) (t : Time)
      (rows : List (NodeRow host)) (new : NodeRow host)
      → at_most new.tx_from t ≡ false
      → believed project_id entity_type tenant_id t (rows ++ new ∷ [])
        ≡ believed project_id entity_type tenant_id t rows
  unfolding believed
  believed-append_new project_id entity_type tenant_id t rows new later =
      let p = is_believed host project_id entity_type tenant_id t in
      let hidden : p new ≡ false = hidden_row project_id entity_type tenant_id t new later in
      ap (map content) (filter-append p rows (new ∷ []) ∙ (rw hidden (append-nil (filter p rows))))

  believed-write_row :
      (project_id : String) (entity_type tenant_id : Option String) (t now : Time)
      (new : NodeRow host) (prev : Option (NodeRow host)) (rows : List (NodeRow host))
      → at_most now t ≡ false
      → new.tx_from ≡ now
      → believed project_id entity_type tenant_id t (write_row host now new prev rows)
        ≡ believed project_id entity_type tenant_id t rows
  unfolding write_row
  believed-write_row project_id entity_type tenant_id t now new none rows later written =
      believed-append_new project_id entity_type tenant_id t rows new (rw written later)
  believed-write_row project_id entity_type tenant_id t now new (some p) rows later written =
      believed-append_new project_id entity_type tenant_id t _ new (rw written later)
      ∙ believed-close_current project_id entity_type tenant_id t now new.node_id rows later

  -- the answer of `as_of` without the times of replacement
  abbrev pub contents : Result (List (NodeRow host)) → Result (List (NodeRow host))
  contents (ok rows) = ok (map content rows)
  contents (err e) = err e

  contents_by :
      (m : Result (Unit {0})) (f g : Result (List (NodeRow host)))
      → contents f ≡ contents g
      → contents (m >> f) ≡ contents (m >> g)
  contents_by (ok u) f g h = h
  contents_by (err e) f g h = refl

  -- Whatever `put_node` writes, `as_of` answers for every earlier time as it did before, except that
  -- a replaced row now says when it was replaced: no belief that was once recorded is rewritten.
  pub as_of-put_node :
      (w : NodeWrite host) (fresh : String) (now t : Time) (db after : Tables host)
      (stored : NodeRow host) (project_id : String) (entity_type tenant_id : Option String)
      → put_node host w fresh now db ≡ ok (stored, after)
      → at_most now t ≡ false
      → contents (as_of host project_id t entity_type tenant_id after)
        ≡ contents (as_of host project_id t entity_type tenant_id db)
  unfolding as_of believed written
  as_of-put_node w fresh now t db after stored project_id entity_type tenant_id h later =
      let wrote = put_node-Written host w fresh now db after stored h in
      let same =
        believed-write_row project_id entity_type tenant_id t now (new_row host w fresh now db)
          (previous host w db.nodes) db.nodes later
          (node_row-tx_from host w (target_id host w fresh) now (previous host w db.nodes)) in
      rw wrote.result (
        contents_by (raise_if (not (is_public_identifier project_id)) value_error) _ _ (
          contents_by (raise_if (is_malformed_id tenant_id) value_error) _ _ (
            contents_by (raise_if (not (is_datetime t)) value_error) _ _ (
              contents_by (raise_if (is_unknown_type entity_type) value_error) (ok _) (ok _)
                (ap ok same)))))
