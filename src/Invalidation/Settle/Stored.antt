-- ===== src/Invalidation/Settle/Stored.antt =====
-- What invalidation.py reads of a stored invalidation, and what it writes when one is settled.
use causal_continuity_engine.Prelude.{
  String, Bool, false, List, Option, none, some, contains, ◌==◌, string_eq,
}
use causal_continuity_engine.Ontology.{Status, Impact, status_eq}
use causal_continuity_engine.Graph.Rows.{Host, NodeRow}
use causal_continuity_engine.Invalidation.Packet.{Receipt}

-- an entry of `affected`; a receipt's `restore_status` is its `prior_status` where it has none
pub record AffectedEntry : Type 0 where
  pub receipt : Receipt
  pub entity_type : String
  pub impact : Impact
  pub path : Option (List String)

-- the data of an invalidation whose parts have the types that are asked for
pub record Stored : Type 0 where
  pub target_node_id : String
  pub target_transition : Receipt
  pub affected : List AffectedEntry

-- the modes of `resolve`
pub data Mode : Type 0 where
  replacement_evidence narrowed_scope superseding_decision : Mode

-- `status in (…)`
abbrev pub is_one_of : List Status → Option Status → Bool
is_one_of l none = false
is_one_of l (some s) = contains l s

-- `value == text`, on a column that may be null
abbrev pub has_text : Option String → String → Bool
has_text none t = false
has_text (some s) t = s == t

module _ (host : Host) where
  open host use {Facts, Scope, Time}

  -- what `resolution` records; the lists of nodes are rendered sorted, each node once
  pub record Resolution : Type 0 where
    pub actor : String
    pub resolved_at : Time
    pub mode : Mode
    pub note : String
    pub replacement_node_id : Option String
    pub replacement : Option (NodeRow host)
    pub narrowed : Option Scope
    pub from_status : Option Status
    pub to_status : Option Status
    pub released : List String
    pub held : List String

  -- the JSON objects of a stored invalidation, read and written, and the engine's check of authority
  pub record Desk : Type 0 where
    -- `none` where a part has another type than is asked for
    pub stored : Facts → Option Stored
    -- `data.get("target_node_id")`, and the entries of `affected` by node and impact, unchecked
    pub target_of : Facts → Option String
    pub entries : Facts → List (String × Option Impact)
    -- `data.get("severity")`
    pub severity : Facts → Option String
    -- `data.get(field)`, where it is text
    pub text_at : String → Facts → Option String
    -- `data.get("source_withdrawn") is True`
    pub is_withdrawn : Facts → Bool
    pub is_empty_scope : Scope → Bool
    pub confirmation : String → Time → Bool → List AffectedEntry → Receipt → List String → Facts
    pub narrowing : Option Scope → Bool → Facts
    pub resolution : Resolution → Facts
    -- `graph.may_mandate`
    pub may_mandate : NodeRow host → Bool
