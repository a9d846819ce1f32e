-- ===== src/Graph/Nodes.antt =====
-- The node operations of graph.py: `put_node` and `get`.
--
-- Every write is given the time that `utcnow()` returns and the identifier that `new_id` returns. A
-- refused write changes nothing: it raises before the first statement, or is rolled back.
-- The read that `put_node` ends with follows the commit in graph.py; here its refusal would refuse
-- the write too.
pub mod Written
pub mod Versions
pub mod Invariant
pub mod Beliefs
pub mod Total
pub mod Runs
use causal_continuity_engine.Prelude.{
  ℕ, suc, ◌+◌, String, Bool, true, false, not, ◌&&◌, ◌||◌, ◌==◌, string_eq, nat_eq, ltb,
  if◌then◌else◌, List, [], ◌∷◌, ◌++◌, map, Option, none, some, any, filter, contains, get_elem?,
  Result, ok, err, ◌>>=◌, ◌>>◌, raise_if, value_error, key_error, integrity_error, is_empty,
}
use causal_continuity_engine.Core.{is_public_identifier}
use causal_continuity_engine.Ontology.{Status, status_eq, entity_types}
use causal_continuity_engine.Graph.Table.{current_row, close_current}
use causal_continuity_engine.Graph.Rows.{
  Host, NodeRow, EdgeRow, EventRow, Tables, outside_unit, starts_by, ends_after, is_null, or_else,
  get_event,
}

-- `_validate_optional_text`: null or not empty
abbrev pub is_blank_text : Option String → Bool
is_blank_text none = false
is_blank_text (some s) = s == ""

abbrev pub is_malformed_id : Option String → Bool
is_malformed_id none = false
is_malformed_id (some s) = not (is_public_identifier s)

-- `_require_event_scope`
unfoldable pub require_event_scope :
    Option String → String → String → List EventRow → Result (Unit {0})
require_event_scope none tenant_id project_id events = ok tt
require_event_scope (some id) tenant_id project_id events =
    if id == ""
    then err value_error
    else elim (get_event id (some (tenant_id, project_id)) events) [
      | ok e ↦ ok tt
      | err error ↦ elim error [ key_error ↦ err value_error | other ↦ err other ]
    ]

-- a filter that is given and not met
abbrev pub differs : Option String → String → Bool
differs none s = false
differs (some t) s = not (t == s)

-- an entity type that is given and unknown
abbrev pub is_unknown_type : Option String → Bool
is_unknown_type none = false
is_unknown_type (some t) = not (contains entity_types t)

module _ (host : Host) where
  open host use {Time, at_most, instant, is_datetime, Facts, update, Scope, Float, lt, tenths}

  abbrev pub node_key : NodeRow host → String
  node_key r = r.node_id

  abbrev pub is_open_node : NodeRow host → Bool
  is_open_node r = is_null r.tx_to

  -- `_current_row("nodes", "node_id", …)`
  abbrev pub current_node : String → List (NodeRow host) → Option (NodeRow host)
  current_node = current_row node_key is_open_node

  -- `UPDATE nodes SET tx_to = ?`
  abbrev pub close_node : Time → NodeRow host → NodeRow host
  close_node now r = record r { tx_to = some now }

  -- the arguments of `put_node`
  pub record NodeWrite : Type 0 where
    pub entity_type : String
    pub tenant_id : String
    pub project_id : String
    pub facts : Facts
    pub node_id : Option String
    pub status : Option Status
    pub criticality : Option String
    pub authority : Option String
    pub confidence : Option Float
    pub scope : Option Scope
    pub valid_from : Option Time
    pub valid_to : Option Time
    pub reopen_validity : Bool
    pub event_id : Option String
    pub extractor : Option String
    pub extractor_version : Option String

  -- `_validate_optional_datetime`
  abbrev pub is_malformed_time : Option Time → Bool
  is_malformed_time none = false
  is_malformed_time (some t) = not (is_datetime t)

  abbrev pub is_malformed_confidence : Option Float → Bool
  is_malformed_confidence none = false
  is_malformed_confidence (some c) = outside_unit host c

  -- the checks of `put_node` that need no database
  unfoldable pub is_malformed_write : NodeWrite → Bool
  is_malformed_write w =
      not (contains entity_types w.entity_type)
      || not (is_public_identifier w.tenant_id)
      || not (is_public_identifier w.project_id)
      || is_malformed_id w.node_id
      || is_malformed_id w.event_id
      || (elim w.status [ none ↦ false | some s ↦ s == Status.other "" ])
      || is_blank_text w.criticality
      || is_blank_text w.authority
      || is_blank_text w.extractor
      || is_blank_text w.extractor_version
      || is_malformed_time w.valid_from
      || is_malformed_time w.valid_to
      || (w.reopen_validity && (is_null w.valid_from || not (is_null w.valid_to)))
      || is_malformed_confidence w.confidence

  abbrev pub previous : NodeWrite → List (NodeRow host) → Option (NodeRow host)
  previous w rows = elim w.node_id [ none ↦ none | some id ↦ current_node id rows ]

  -- a reopening that does not follow a closed interval
  abbrev pub reopens_wrongly : NodeWrite → Option (NodeRow host) → Bool
  reopens_wrongly w none = w.reopen_validity
  reopens_wrongly w (some p) = w.reopen_validity && elim p.valid_to [
    | none ↦ true
    | some ended ↦ elim w.valid_from [
      | none ↦ true
      | some from ↦ ltb (instant from) (instant ended)
    ]
  ]

  -- `identity != previous_identity`
  abbrev pub changes_identity : NodeWrite → Option (NodeRow host) → Bool
  changes_identity w none = false
  changes_identity w (some p) =
      not (
        w.entity_type == p.entity_type
        && w.tenant_id == p.tenant_id
        && w.project_id == p.project_id)

  -- the row that is inserted: a first version, or one that carries forward what is not given
  unfoldable pub node_row : NodeWrite → String → Time → Option (NodeRow host) → NodeRow host
  node_row w id now none = record {
    node_id = id;
    version = 1;
    entity_type = w.entity_type;
    tenant_id = w.tenant_id;
    project_id = w.project_id;
    status = w.status;
    criticality = w.criticality;
    authority = w.authority;
    confidence = w.confidence;
    scope = w.scope;
    facts = w.facts;
    valid_from = or_else w.valid_from (some now);
    valid_to = w.valid_to;
    tx_from = now;
    tx_to = none;
    event_id = w.event_id;
    extractor = w.extractor;
    extractor_version = w.extractor_version;
  }
  node_row w id now (some p) = record {
    node_id = id;
    version = suc p.version;
    entity_type = w.entity_type;
    tenant_id = w.tenant_id;
    project_id = w.project_id;
    status = or_else w.status p.status;
    criticality = or_else w.criticality p.criticality;
    authority = or_else w.authority p.authority;
    confidence = or_else w.confidence p.confidence;
    scope = or_else w.scope p.scope;
    facts = update p.facts w.facts;
    valid_from = or_else (or_else w.valid_from p.valid_from) (some now);
    valid_to = if w.reopen_validity then w.valid_to else or_else w.valid_to p.valid_to;
    tx_from = now;
    tx_to = none;
    event_id = w.event_id;
    extractor = w.extractor;
    extractor_version = w.extractor_version;
  }

  -- `UNIQUE (node_id, version)`
  abbrev pub is_taken : NodeRow host → List (NodeRow host) → Bool
  is_taken new rows =
      any (λ (r : NodeRow host). r.node_id == new.node_id && r.version == new.version) rows

  -- the UPDATE, where there is a previous version, and the INSERT
  unfoldable pub write_row :
      Time → NodeRow host → Option (NodeRow host) → List (NodeRow host) → List (NodeRow host)
  write_row now new none rows = rows ++ new ∷ []
  write_row now new (some p) rows =
      close_current node_key is_open_node (close_node now) new.node_id rows ++ new ∷ []

  -- `get`, for the current row
  unfoldable pub get :
      String
      → (tenant_id project_id entity_type : Option String) → Tables host
      → Result (NodeRow host)
  get id tenant_id project_id entity_type db = elim (current_node id db.nodes) [
    | none ↦ err key_error
    | some r ↦
        if differs tenant_id r.tenant_id
          || differs project_id r.project_id
          || differs entity_type r.entity_type
        then err key_error
        else ok r
  ]

  -- the node that `put_node` writes, its row, and the database with it
  abbrev pub target_id : NodeWrite → String → String
  target_id w fresh = elim w.node_id [ none ↦ fresh | some given ↦ given ]

  abbrev pub new_row : NodeWrite → String → Time → Tables host → NodeRow host
  new_row w fresh now db = node_row w (target_id w fresh) now (previous w db.nodes)

  unfoldable pub written : NodeWrite → String → Time → Tables host → Tables host
  written w fresh now db = record db {
    nodes = write_row now (new_row w fresh now db) (previous w db.nodes) db.nodes;
  }

  -- the refusals of `put_node`
  unfoldable pub check_write : NodeWrite → String → Time → Tables host → Result (Unit {0})
  check_write w fresh now db = do
    raise_if (is_malformed_write w) value_error
    require_event_scope w.event_id w.tenant_id w.project_id db.events
    raise_if (reopens_wrongly w (previous w db.nodes)) value_error
    raise_if (changes_identity w (previous w db.nodes)) value_error
    raise_if (is_taken (new_row w fresh now db) db.nodes) integrity_error

  -- `put_node`
  unfoldable pub put_node :
      NodeWrite → String → Time → Tables host → Result (NodeRow host × Tables host)
  put_node w fresh now db = do
    check_write w fresh now db
    let after = written w fresh now db
    stored ←
        get (target_id w fresh) (some w.tenant_id) (some w.project_id) (some w.entity_type) after
    ok (stored, after)
