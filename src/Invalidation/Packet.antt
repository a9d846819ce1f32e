-- ===== src/Invalidation/Packet.antt =====
-- What an invalidation records, in invalidation.py.
use causal_continuity_engine.Prelude.{ℕ, String, Bool, string_eq, List, Option}
use causal_continuity_engine.Ontology.{Status, Impact, status_eq}
use causal_continuity_engine.Graph.Rows.{Host}

-- what an invalidation records of a node's status
pub record Receipt : Type 0 where
  pub node_id : String
  pub prior_status : Option Status
  pub restore_status : Option Status
  pub impact_applied : Bool
  pub applied_status : Option Status

-- the identifiers that `new_id` returns: of the invalidation, and of an edge by its type and end
pub record Names : Type 0 where
  pub invalidation : String
  pub edge : String → String → String

module _ (host : Host) where
  open host use {Time, Facts, Float, tenths}

  -- an entry of `classified`
  pub record Affected : Type 0 where
    pub receipt : Receipt
    pub entity_type : String
    pub depth : ℕ
    pub strength : Float
    pub impact : Impact
    pub path : List String

  -- `explanation`, less the texts for a human reader that `_fire` derives from it
  pub record Explanation : Type 0 where
    pub trigger_type : String
    pub trigger_evidence_id : Option String
    pub trigger_confidence : Float
    pub reason : String
    pub target_node_id : String
    pub minimal_causal_path : List String
    pub affected_count : ℕ
    pub truncated : Bool
    pub severity : String
    pub requires_human_confirmation : Bool
    pub target_transition : Receipt

  -- the JSON objects that are stored as the data of an invalidation, and what is read back
  pub record Codec : Type 0 where
    -- `{}`
    pub nothing : Facts
    pub explained : Explanation → List Affected → Facts
    pub applied : List Affected → Receipt → Facts
    pub unapplied : List String → Bool → Facts
    -- the data of an edge: the impact, or that it awaits a human
    pub impact_of : Option Impact → Facts
    -- the receipts, that of the target first, each with the status to restore
    pub receipts : Facts → List (String × Option Status)

  -- the fields of `InvalidationEngine`
  pub record Engine : Type 0 where
    pub max_depth : ℕ
    pub max_nodes : ℕ
    pub tenant_id : Option String
    pub codec : Codec
    -- `validate_human_text` accepts the text
    pub is_human_text : String → Bool

  -- the arguments of `fire`
  pub record Trigger : Type 0 where
    pub tenant_id : String
    pub project_id : String
    pub target_node_id : String
    pub trigger_type : String
    pub trigger_evidence_id : Option String
    pub trigger_confidence : Float
    pub reason : String
    pub event_id : Option String
    pub actor : String
    pub requires_human : Option Bool
    pub invalidation_id : Option String
