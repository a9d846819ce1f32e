-- ===== src/Graph/Rows.antt =====
-- The rows of graph.py's two tables, and what the module uses of its surroundings.
use causal_continuity_engine.Prelude.{
  ℕ, String, Bool, true, false, ◌&&◌, ◌==◌, string_eq, List, [], ◌∷◌, Option, none, some, Result,
  ok, err, if◌then◌else◌, key_error, payload_integrity_error, not, ◌||◌,
}
use causal_continuity_engine.Ontology.{Status}

-- Texts that denote times and their two orders, JSON objects and their `update`, and floats.
pub record Host : Type 1 where
  pub Time : Type 0
  -- `<=` of SQLite on the texts
  pub at_most : Time → Time → Bool
  -- `parse_ts`
  pub instant : Time → ℕ
  -- `is_rfc3339_datetime`
  pub is_datetime : Time → Bool
  pub Facts : Type 0
  -- `merged.update(data)`
  pub update : Facts → Facts → Facts
  pub Scope : Type 0
  pub Float : Type 0
  pub lt : Float → Float → Bool
  pub times : Float → Float → Float
  -- a literal, in tenths
  pub tenths : ℕ → Float
  -- a literal, in hundredths
  pub hundredths : ℕ → Float
  -- `round(s, 4)`
  pub rounded : Float → Float

-- what `get_event` reads of a row of `events`
pub record EventRow : Type 0 where
  pub event_id : String
  pub tenant_id : String
  pub project_id : String
  pub payload_intact : Bool

module _ (host : Host) where
  open host use {Time, at_most, Facts, Scope, Float, lt, tenths}

  -- a row of `nodes`; `facts` is the column `data`
  pub record NodeRow : Type 0 where
    pub node_id : String
    pub version : ℕ
    pub entity_type : String
    pub tenant_id : String
    pub project_id : String
    pub status : Option Status
    pub criticality : Option String
    pub authority : Option String
    pub confidence : Option Float
    pub scope : Option Scope
    pub facts : Facts
    pub valid_from : Option Time
    pub valid_to : Option Time
    pub tx_from : Time
    pub tx_to : Option Time
    pub event_id : Option String
    pub extractor : Option String
    pub extractor_version : Option String

  -- a row of `edges`
  pub record EdgeRow : Type 0 where
    pub edge_id : String
    pub version : ℕ
    pub edge_type : String
    pub src_id : String
    pub dst_id : String
    pub tenant_id : String
    pub project_id : String
    pub strength : Float
    pub facts : Option Facts
    pub valid_from : Option Time
    pub valid_to : Option Time
    pub tx_from : Time
    pub tx_to : Option Time
    pub event_id : Option String

  -- The two tables in the order of `row_id`, and the events of the store.
  pub record Tables : Type 0 where
    pub nodes : List NodeRow
    pub edges : List EdgeRow
    pub events : List EventRow

  -- `not 0 <= x <= 1`
  abbrev pub outside_unit : Float → Bool
  outside_unit x = lt x (tenths 0) || lt (tenths 10) x

  -- `x <= ?` on a column that may be null, where null passes, and `x > ?` likewise
  abbrev pub starts_by : Option Time → Time → Bool
  starts_by none t = true
  starts_by (some from) t = at_most from t

  abbrev pub ends_after : Option Time → Time → Bool
  ends_after none t = true
  ends_after (some to) t = not (at_most to t)

-- `tx_to IS NULL`
abbrev pub is_null {ℓ} : {A : Type ℓ} → Option A → Bool
is_null none = true
is_null (some a) = false

-- `x if x is not None else y`
abbrev pub or_else {ℓ} : {A : Type ℓ} → Option A → Option A → Option A
or_else (some a) y = some a
or_else none y = y

-- the row that `get_event` selects
unfoldable pub find_event : String → List EventRow → Option EventRow
find_event id [] = none
find_event id (e ∷ events) = if e.event_id == id then some e else find_event id events

-- `Store.get_event`, whose answer is read for its tenant and project only
unfoldable pub get_event : String → Option (String × String) → List EventRow → Result EventRow
get_event id scope events = elim (find_event id events) [
  | none ↦ err key_error
  | some e ↦
      if elim scope [ none ↦ false | some (t, p) ↦ not (e.tenant_id == t && e.project_id == p) ]
      then err key_error
      else if e.payload_intact
      then ok e
      else err payload_integrity_error
]
