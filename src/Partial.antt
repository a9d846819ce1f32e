-- ===== src/Partial.antt =====
-- causal_continuity_engine/partial.py: outcomes, quarantine and rollbacks. The audit entries are not
-- of these tables.
pub mod Barred
pub mod Runs
use causal_continuity_engine.Core.{labelled}
use causal_continuity_engine.Prelude.{
  String, Bool, true, false, not, ◌&&◌, ◌==◌, string_eq, if◌then◌else◌, List, [], ◌∷◌, Option, none,
  some, contains, Result, ok, err, ◌>>=◌, ◌>>◌, raise_if, value_error, permission_error,
}
use causal_continuity_engine.Ontology.{Status}
use causal_continuity_engine.Graph.Rows.{Host, NodeRow, Tables}
use causal_continuity_engine.Graph.Nodes.{NodeWrite, put_node, get, is_malformed_id}
use causal_continuity_engine.Graph.Edges.{put_edge}
use causal_continuity_engine.Invalidation.Writes.{status_write, unless_missing}
use causal_continuity_engine.Invalidation.Settle.Holds.{tenant_or}
use causal_continuity_engine.Memory.Rows.{Shelves, Keeper, effective_tenant, require_own_project}
use causal_continuity_engine.Memory.Tiers.{demote_from_any_tier}
use causal_continuity_engine.Memory.Checkpoint.{plain_edge, link_session}

-- `RUN_OUTCOMES`
pub data RunOutcome : Type 0 where
  completed partially_completed blocked failed cancelled inconclusive : RunOutcome

abbrev pub outcome_status : RunOutcome → Status
outcome_status RunOutcome.completed = Status.other "completed"
outcome_status RunOutcome.partially_completed = Status.other "partially_completed"
outcome_status RunOutcome.blocked = Status.blocked
outcome_status RunOutcome.failed = Status.failed
outcome_status RunOutcome.cancelled = Status.other "cancelled"
outcome_status RunOutcome.inconclusive = Status.other "inconclusive"

-- `f"rollback_{status}"`
abbrev pub rollback_status : RunOutcome → Status
rollback_status RunOutcome.completed = Status.other "rollback_completed"
rollback_status RunOutcome.partially_completed = Status.other "rollback_partially_completed"
rollback_status RunOutcome.blocked = Status.other "rollback_blocked"
rollback_status RunOutcome.failed = Status.other "rollback_failed"
rollback_status RunOutcome.cancelled = Status.other "rollback_cancelled"
rollback_status RunOutcome.inconclusive = Status.other "rollback_inconclusive"

-- `FAILURE_TAXONOMY`
abbrev pub failure_taxonomy : List String
failure_taxonomy =
    "planning" ∷ "retrieval" ∷ "stale_assumption" ∷ "tool" ∷ "environment" ∷ "verification"
    ∷ "policy" ∷ "coordination" ∷ "unknown" ∷ []

abbrev pub is_unknown_failure : Option String → Bool
is_unknown_failure none = false
is_unknown_failure (some mode) = not (contains failure_taxonomy mode)

module _ (host : Host) where
  open host use {Time, Facts}

  -- the arguments of `record_outcome`, whose lists are finite JSON objects
  pub record Report : Type 0 where
    pub tenant_id : String
    pub project_id : String
    pub session_id : Option String
    pub outcome : RunOutcome
    pub completed_items : List Facts
    pub failed_items : List Facts
    pub blocked_items : List Facts
    pub skipped_items : List Facts
    pub unverified_items : List Facts
    pub failure_mode : Option String
    pub event_id : Option String

  -- the arguments of `record_rollback`
  pub record Rollback : Type 0 where
    pub tenant_id : String
    pub project_id : String
    pub action_id : String
    pub compensating_action : String
    pub outcome : RunOutcome
    pub evidence_digest : Option String
    pub event_id : Option String

  -- the JSON objects that are stored
  pub record Journal : Type 0 where
    pub quarantined_for : String → Time → Facts
    pub reported : Report → Time → Facts
    pub rolled_back : Rollback → Time → Facts

  -- `_node`
  abbrev pub own_node : Keeper host → String → Option String → Tables host → Result (NodeRow host)
  own_node manager id kind db =
      unless_missing permission_error (get host id manager.tenant_id none kind db)

  -- a session that is not of the project
  unfoldable pub check_session :
      Keeper host → String → Option String → Tables host → Result (Unit {0})
  check_session manager project_id none db = ok tt
  check_session manager project_id (some id) db = do
    session ← own_node manager id (some "session") db
    raise_if (not (session.project_id == project_id)) permission_error

  module _ (manager memory : Keeper host) (journal : Journal) (now : Time) where
    -- `quarantine`
    unfoldable pub quarantine :
        String
        → String
        → String
        → Option String
        → Shelves host
        → Result (NodeRow host × Shelves host)
    quarantine id actor reason event_id s = do
      node ← own_node manager id none s.tables
      r ←
          put_node host
            (status_write host node.entity_type node.tenant_id node.project_id (some id)
              (some Status.quarantined) (journal.quarantined_for reason now) event_id)
            "" now s.tables
      vacated ←
          demote_from_any_tier host memory now node.project_id id actor
            (labelled "quarantined: " reason) (record s { tables = r.1 })
      ok (r.0, vacated.1)

    abbrev pub outcome_write : String → Report → NodeWrite host
    outcome_write tenant_id q =
        status_write host "outcome" tenant_id q.project_id none (some (outcome_status q.outcome))
          (journal.reported q now) q.event_id

    -- `record_outcome`, with the fresh identifiers of the node and of the edge
    unfoldable pub record_outcome :
        String → String → Report → Tables host → Result (NodeRow host × Tables host)
    record_outcome fresh fresh_edge q db = do
      raise_if (is_malformed_id q.session_id) value_error
      tenant ← effective_tenant host manager (some q.tenant_id)
      own ← require_own_project host manager q.project_id db
      raise_if (is_unknown_failure q.failure_mode) value_error
      session ← check_session manager q.project_id q.session_id db
      r ← put_node host (outcome_write (tenant_or manager.tenant_id q.tenant_id) q) fresh now db
      after ←
          link_session host q.session_id r.0.node_id (tenant_or manager.tenant_id q.tenant_id)
            q.project_id q.event_id fresh_edge now r.1
      ok (r.0, after)

    abbrev pub rollback_write : String → Rollback → NodeWrite host
    rollback_write tenant_id q =
        status_write host "action" tenant_id q.project_id none (some (rollback_status q.outcome))
          (journal.rolled_back q now) q.event_id

    -- `record_rollback`, with the fresh identifiers of the node and of the edge
    unfoldable pub record_rollback :
        String → String → Rollback → Tables host → Result (NodeRow host × Tables host)
    record_rollback fresh fresh_edge q db = do
      raise_if (not (manager.is_human_text q.compensating_action)) value_error
      tenant ← effective_tenant host manager (some q.tenant_id)
      own ← require_own_project host manager q.project_id db
      action ← own_node manager q.action_id (some "action") db
      raise_if (not (action.project_id == q.project_id)) permission_error
      r ← put_node host (rollback_write (tenant_or manager.tenant_id q.tenant_id) q) fresh now db
      e ←
          put_edge host
            (plain_edge host "supersedes" r.0.node_id q.action_id
              (tenant_or manager.tenant_id q.tenant_id) q.project_id q.event_id)
            fresh_edge now r.1
      ok (r.0, e.1)
