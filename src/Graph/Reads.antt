-- ===== src/Graph/Reads.antt =====
-- The reads of graph.py by time and by status: `as_of`, `history` and `current`.
use causal_continuity_engine.Prelude.{
  String, Bool, true, false, not, ◌&&◌, ◌==◌, string_eq, nat_eq, if◌then◌else◌, List, [], Option,
  none, some, filter, contains, Result, ok, ◌>>◌, raise_if, value_error, is_empty,
}
use causal_continuity_engine.Core.{is_public_identifier}
use causal_continuity_engine.Ontology.{Status, status_eq}
use causal_continuity_engine.Graph.Rows.{Host, NodeRow, Tables, starts_by, ends_after, is_null}
use causal_continuity_engine.Graph.Nodes.{
  is_malformed_id, is_unknown_type, differs, is_malformed_time,
}

module _ (host : Host) where
  open host use {Time, at_most, instant, is_datetime, Facts, update, Scope, Float, lt, tenths}

  -- the rows that were recorded by `t` and not yet replaced
  abbrev pub recorded_at : Time → NodeRow host → Bool
  recorded_at t r = at_most r.tx_from t && ends_after host r.tx_to t

  -- the rows that `as_of` selects
  abbrev pub is_believed : String → Option String → Option String → Time → NodeRow host → Bool
  is_believed project_id entity_type tenant_id t r =
      r.project_id == project_id
      && recorded_at t r
      && not (differs tenant_id r.tenant_id)
      && not (differs entity_type r.entity_type)

  -- `as_of`
  unfoldable pub as_of :
      String → Time → Option String → Option String → Tables host → Result (List (NodeRow host))
  as_of project_id t entity_type tenant_id db = do
    raise_if (not (is_public_identifier project_id)) value_error
    raise_if (is_malformed_id tenant_id) value_error
    raise_if (not (is_datetime t)) value_error
    raise_if (is_unknown_type entity_type) value_error
    ok (filter (is_believed project_id entity_type tenant_id t) db.nodes)

  -- `history`: the list keeps the order of versions
  unfoldable pub history :
      String → Option String → Option String → Tables host → List (NodeRow host)
  history id tenant_id project_id db =
      filter
        (λ (r : NodeRow host).
          r.node_id == id
          && not (differs tenant_id r.tenant_id)
          && not (differs project_id r.project_id))
        db.nodes

  abbrev pub is_status_selected : Option (List Status) → Option Status → Bool
  is_status_selected none s = true
  is_status_selected (some l) none = false
  is_status_selected (some l) (some s) = contains l s

  abbrev pub is_valid_at : Option Time → Option Time → Option Time → Bool
  is_valid_at none from to = true
  is_valid_at (some t) from to = starts_by host from t && ends_after host to t

  -- the rows that `current` selects
  abbrev pub is_selected :
      String
      → Option String
      → Option (List Status)
      → Option Time
      → Option String
      → NodeRow host
      → Bool
  is_selected project_id entity_type statuses valid_at tenant_id r =
      r.project_id == project_id
      && is_null r.tx_to
      && not (differs tenant_id r.tenant_id)
      && not (differs entity_type r.entity_type)
      && is_status_selected statuses r.status
      && is_valid_at valid_at r.valid_from r.valid_to

  -- an empty list of statuses, for which `current` returns early
  abbrev pub selects_no_status : Option (List Status) → Bool
  selects_no_status none = false
  selects_no_status (some l) = is_empty l

  -- `current`
  unfoldable pub current :
      String
      → Option String
      → Option (List Status)
      → Option Time
      → Option String
      → Tables host
      → Result (List (NodeRow host))
  current project_id entity_type statuses valid_at tenant_id db = do
    raise_if (not (is_public_identifier project_id)) value_error
    raise_if (is_malformed_id tenant_id) value_error
    raise_if (is_unknown_type entity_type) value_error
    raise_if (elim statuses [ none ↦ false | some l ↦ contains l (Status.other "") ]) value_error
    if selects_no_status statuses then ok [] else do
      raise_if (is_malformed_time host valid_at) value_error
      ok (filter (is_selected project_id entity_type statuses valid_at tenant_id) db.nodes)
