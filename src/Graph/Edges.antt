-- ===== src/Graph/Edges.antt =====
-- The edge operations of graph.py: `put_edge` and `end_edge`.
pub mod Ended
pub mod Sole
use causal_continuity_engine.Prelude.{
  ℕ, suc, String, Bool, true, false, not, ◌&&◌, ◌||◌, ◌==◌, string_eq, nat_eq, if◌then◌else◌, List,
  [], ◌∷◌, ◌++◌, Option, none, some, any, filter, contains, all, is_empty, Result, ok, err, ◌>>=◌,
  ◌>>◌, raise_if, value_error, key_error, permission_error, integrity_error, type_error,
}
use causal_continuity_engine.Core.{is_public_identifier}
use causal_continuity_engine.Ontology.{edge_types}
use causal_continuity_engine.Graph.Table.{current_row, close_current}
use causal_continuity_engine.Graph.Rows.{
  Host, NodeRow, EdgeRow, EventRow, Tables, outside_unit, starts_by, ends_after, is_null, or_else,
  get_event, find_event,
}
use causal_continuity_engine.Graph.Nodes.{
  is_malformed_id, is_malformed_time, require_event_scope, current_node, differs,
}

abbrev pub has_unknown_kind : Option (List String) → Bool
has_unknown_kind none = false
has_unknown_kind (some l) = not (all (contains edge_types) l)

-- an empty set of types, for which `_edges_for` returns early
abbrev pub selects_nothing : Option (List String) → Bool
selects_nothing none = false
selects_nothing (some l) = is_empty l

module _ (host : Host) where
  open host use {Time, is_datetime, Facts, Float}

  abbrev pub edge_key : EdgeRow host → String
  edge_key r = r.edge_id

  abbrev pub is_open_edge : EdgeRow host → Bool
  is_open_edge r = is_null r.tx_to

  -- `_current_row("edges", "edge_id", …)`
  abbrev pub current_edge : String → List (EdgeRow host) → Option (EdgeRow host)
  current_edge = current_row edge_key is_open_edge

  abbrev pub close_edge : Time → EdgeRow host → EdgeRow host
  close_edge now r = record r { tx_to = some now }

  -- the arguments of `put_edge`
  pub record EdgeWrite : Type 0 where
    pub edge_type : String
    pub src_id : String
    pub dst_id : String
    pub tenant_id : String
    pub project_id : String
    pub strength : Float
    pub facts : Option Facts
    pub valid_from : Option Time
    pub valid_to : Option Time
    pub event_id : Option String
    pub edge_id : Option String

  -- the checks of `put_edge` that need no database
  unfoldable pub is_malformed_edge : EdgeWrite → Bool
  is_malformed_edge w =
      not (contains edge_types w.edge_type)
      || not (is_public_identifier w.tenant_id)
      || not (is_public_identifier w.project_id)
      || not (is_public_identifier w.src_id)
      || not (is_public_identifier w.dst_id)
      || is_malformed_id w.edge_id
      || is_malformed_id w.event_id
      || is_malformed_time host w.valid_from
      || is_malformed_time host w.valid_to
      || outside_unit host w.strength

  -- `_reference_scope`: the scope of a current node, or else of an event
  unfoldable pub reference_scope : String → Tables host → Result (Option (String × String))
  reference_scope id db = elim (current_node host id db.nodes) [
    | some n ↦ ok (some (n.tenant_id, n.project_id))
    | none ↦ elim (get_event id none db.events) [
      | ok e ↦ ok (some (e.tenant_id, e.project_id))
      | err error ↦ elim error [ key_error ↦ ok none | other ↦ err other ]
    ]
  ]

  abbrev pub is_scope : Option (String × String) → String → String → Bool
  is_scope none tenant_id project_id = false
  is_scope (some (t, p)) tenant_id project_id = t == tenant_id && p == project_id

  -- the SELECT of a current edge between the same ends
  abbrev pub is_same_relation : EdgeWrite → EdgeRow host → Bool
  is_same_relation w r =
      r.tenant_id == w.tenant_id
      && r.project_id == w.project_id
      && r.edge_type == w.edge_type
      && r.src_id == w.src_id
      && r.dst_id == w.dst_id
      && is_null r.tx_to

  unfoldable pub existing_edge : EdgeWrite → List (EdgeRow host) → Option String
  existing_edge w [] = none
  existing_edge w (r ∷ rows) = if is_same_relation w r then some r.edge_id else existing_edge w rows

  abbrev pub known_edge : EdgeWrite → List (EdgeRow host) → Option String
  known_edge w rows = elim w.edge_id [ some id ↦ some id | none ↦ existing_edge w rows ]

  abbrev pub previous_edge : Option String → List (EdgeRow host) → Option (EdgeRow host)
  previous_edge none rows = none
  previous_edge (some id) rows = current_edge id rows

  -- `identity != previous_identity`
  abbrev pub changes_relation : EdgeWrite → Option (EdgeRow host) → Bool
  changes_relation w none = false
  changes_relation w (some p) = not (
      w.edge_type == p.edge_type
      && w.src_id == p.src_id
      && w.dst_id == p.dst_id
      && w.tenant_id == p.tenant_id
      && w.project_id == p.project_id)

  abbrev pub next_version : Option (EdgeRow host) → ℕ
  next_version none = 1
  next_version (some p) = suc p.version

  -- the row that `put_edge` inserts
  unfoldable pub edge_row : EdgeWrite → String → Time → Option (EdgeRow host) → EdgeRow host
  edge_row w id now prev = record {
    edge_id = id;
    version = next_version prev;
    edge_type = w.edge_type;
    src_id = w.src_id;
    dst_id = w.dst_id;
    tenant_id = w.tenant_id;
    project_id = w.project_id;
    strength = w.strength;
    facts = w.facts;
    valid_from = or_else w.valid_from (some now);
    valid_to = w.valid_to;
    tx_from = now;
    tx_to = none;
    event_id = w.event_id;
  }

  -- `UNIQUE (edge_id, version)`
  abbrev pub is_taken_edge : EdgeRow host → List (EdgeRow host) → Bool
  is_taken_edge new rows =
      any (λ (r : EdgeRow host). r.edge_id == new.edge_id && r.version == new.version) rows

  -- the UPDATE, where there is a previous version, and the INSERT
  unfoldable pub write_edge :
      Time → EdgeRow host → Option (EdgeRow host) → List (EdgeRow host) → List (EdgeRow host)
  write_edge now new none rows = rows ++ new ∷ []
  write_edge now new (some p) rows =
      close_current edge_key is_open_edge (close_edge now) new.edge_id rows ++ new ∷ []

  -- `put_edge`
  unfoldable pub put_edge :
      EdgeWrite → String → Time → Tables host → Result (EdgeRow host × Tables host)
  put_edge w fresh now db = do
    raise_if (is_malformed_edge w) value_error
    require_event_scope w.event_id w.tenant_id w.project_id db.events
    src ← reference_scope w.src_id db
    dst ← reference_scope w.dst_id db
    raise_if
        (not (is_scope src w.tenant_id w.project_id) || not (is_scope dst w.tenant_id w.project_id))
        value_error
    let known = known_edge w db.edges
    let prev = previous_edge known db.edges
    let id : String = elim known [ none ↦ fresh | some given ↦ given ]
    let new = edge_row w id now prev
    raise_if (changes_relation w prev) value_error
    raise_if (is_taken_edge new db.edges) integrity_error
    let after = record db { edges = write_edge now new prev db.edges }
    elim (current_edge id after.edges) [ none ↦ err type_error | some r ↦ ok (r, after) ]

  -- the row that `end_edge` inserts
  unfoldable pub ended_row : Option Time → Option String → Time → EdgeRow host → EdgeRow host
  ended_row valid_to event_id now p = record p {
    version = suc p.version;
    valid_to = or_else valid_to (some now);
    tx_from = now;
    tx_to = none;
    event_id = event_id;
  }

  -- `end_edge`
  unfoldable pub end_edge :
      String
      → String
      → String
      → Option String
      → Option Time
      → Time
      → Tables host
      → Result (Tables host)
  end_edge id tenant_id project_id event_id valid_to now db = do
    raise_if (not (is_public_identifier id)) value_error
    raise_if (not (is_public_identifier tenant_id)) value_error
    raise_if (not (is_public_identifier project_id)) value_error
    raise_if (is_malformed_id event_id) value_error
    raise_if (is_malformed_time host valid_to) value_error
    require_event_scope event_id tenant_id project_id db.events
    elim (current_edge id db.edges) [
      | none ↦ err key_error
      | some p ↦
          if not (p.tenant_id == tenant_id && p.project_id == project_id)
          then err permission_error
          else if is_taken_edge (ended_row valid_to event_id now p) db.edges
          then err integrity_error
          else ok (record db {
            edges = write_edge now (ended_row valid_to event_id now p) (some p) db.edges;
          })
    ]
