-- ===== src/Graph/Adjacent.antt =====
-- The edges of a node, in graph.py: `_edges_for`, `out_edges` and `in_edges`.
use causal_continuity_engine.Prelude.{
  String, Bool, true, not, ◌&&◌, ◌||◌, ◌==◌, string_eq, nat_eq, if◌then◌else◌, List, [], Option,
  none, some, any, filter, contains, Result, ok, ◌>>=◌, ◌>>◌, raise_if, value_error,
}
use causal_continuity_engine.Core.{is_public_identifier}
use causal_continuity_engine.Graph.Rows.{
  Host, NodeRow, EdgeRow, EventRow, Tables, starts_by, ends_after, is_null,
}
use causal_continuity_engine.Graph.Nodes.{is_malformed_time}
use causal_continuity_engine.Graph.Edges.{has_unknown_kind, selects_nothing, reference_scope}

module _ (host : Host) where
  open host use {Time, is_datetime, Facts, Float}

  -- the two EXISTS of `_edges_for`: the other end is a current node or an event of the same scope
  abbrev pub is_endpoint : String → String → String → Tables host → Bool
  is_endpoint id tenant_id project_id db =
      any
        (λ (n : NodeRow host).
          n.node_id == id
          && is_null n.tx_to
          && n.tenant_id == tenant_id
          && n.project_id == project_id)
        db.nodes
      || any
          (λ (e : EventRow).
            e.event_id == id && e.tenant_id == tenant_id && e.project_id == project_id)
          db.events

  abbrev pub is_type_selected : Option (List String) → String → Bool
  is_type_selected none kind = true
  is_type_selected (some kinds) kind = contains kinds kind

  -- a row that `_edges_for` selects, between the ends that `ends` names
  abbrev pub is_edge_for :
      (EdgeRow host → String × String)
      → String
      → String × String
      → Option (List String)
      → Time
      → Tables host
      → EdgeRow host
      → Bool
  is_edge_for ends id anchor kinds t db r =
      (ends r).0 == id
      && is_null r.tx_to
      && (r.tenant_id == anchor.0 && r.project_id == anchor.1)
      && is_endpoint (ends r).1 r.tenant_id r.project_id db
      && (starts_by host r.valid_from t && ends_after host r.valid_to t)
      && is_type_selected kinds r.edge_type

  abbrev pub selected_edges :
      (EdgeRow host → String × String)
      → String
      → Option (List String)
      → Time
      → Tables host
      → Option (String × String)
      → List (EdgeRow host)
  selected_edges ends id kinds t db none = []
  selected_edges ends id kinds t db (some scope) =
      filter (is_edge_for ends id scope kinds t db) db.edges

  -- `_edges_for`, at the time `valid_at` or `now`
  unfoldable pub edges_for :
      (EdgeRow host → String × String)
      → String
      → Option (List String)
      → Option Time
      → Time
      → Tables host
      → Result (List (EdgeRow host))
  edges_for ends id kinds valid_at now db = do
    raise_if (not (is_public_identifier id)) value_error
    raise_if (is_malformed_time host valid_at) value_error
    raise_if (has_unknown_kind kinds) value_error
    let t : Time = elim valid_at [ none ↦ now | some given ↦ given ]
    if selects_nothing kinds
        then ok []
        else do anchor ← reference_scope host id db; ok (selected_edges ends id kinds t db anchor)

  abbrev pub outwards : EdgeRow host → String × String
  outwards r = (r.src_id, r.dst_id)

  abbrev pub inwards : EdgeRow host → String × String
  inwards r = (r.dst_id, r.src_id)

  -- `out_edges` and `in_edges`
  abbrev pub out_edges :
      String
      → Option (List String)
      → Option Time
      → Time
      → Tables host
      → Result (List (EdgeRow host))
  out_edges = edges_for outwards

  abbrev pub in_edges :
      String
      → Option (List String)
      → Option Time
      → Time
      → Tables host
      → Result (List (EdgeRow host))
  in_edges = edges_for inwards
