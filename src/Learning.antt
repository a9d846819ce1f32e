-- ===== src/Learning.antt =====
-- causal_continuity_engine/learning.py: results of replays, diagnosed failures and proposed skills.
-- The audit entries are not of these tables.
pub mod Approval
mod Runs
use causal_continuity_engine.Prelude.{
  String, Bool, true, false, not, ◌&&◌, ◌||◌, ◌==◌, string_eq, if◌then◌else◌, List, [], ◌∷◌, ◌++◌,
  any, Option, none, some, contains, Result, ok, err, ◌>>=◌, ◌>>◌, raise_if, value_error,
  permission_error,
}
use causal_continuity_engine.Ontology.{Status, status_eq}
use causal_continuity_engine.Graph.Rows.{Host, NodeRow, Tables, get_event}
use causal_continuity_engine.Graph.Nodes.{NodeWrite, put_node}
use causal_continuity_engine.Graph.Edges.{put_edge}
use causal_continuity_engine.Invalidation.Writes.{status_write, unless_missing}
use causal_continuity_engine.Invalidation.Settle.Stored.{is_one_of, has_text}
use causal_continuity_engine.Invalidation.Settle.Holds.{tenant_or}
use causal_continuity_engine.Memory.Rows.{Keeper, effective_tenant, require_own_project}
use causal_continuity_engine.Memory.Checkpoint.{plain_edge}
use causal_continuity_engine.Partial.{failure_taxonomy, own_node, check_session}

-- `_FAILURE_RULES`
abbrev pub failure_rules : List (String × List String)
failure_rules =
    ("stale_assumption", "stale" ∷ "assumption" ∷ "invalidat" ∷ "outdated" ∷ [])
    ∷ ("verification", "test fail" ∷ "assert" ∷ "verification" ∷ "check fail" ∷ "proof" ∷ [])
    ∷ (
      "environment",
      "env" ∷ "dependency" ∷ "version" ∷ "missing module" ∷ "install" ∷ "not found"
          ∷ "permission denied" ∷ [],
    )
    ∷ ("tool", "tool" ∷ "command" ∷ "subprocess" ∷ "timeout" ∷ "crash" ∷ "exit code" ∷ [])
    ∷ ("retrieval", "retriev" ∷ "context" ∷ "memory" ∷ "missing information" ∷ [])
    ∷ ("planning", "plan" ∷ "wrong order" ∷ "skipped step" ∷ "scope" ∷ [])
    ∷ ("policy", "policy" ∷ "denied" ∷ "authoriz" ∷ "autonomy" ∷ "blocked by" ∷ [])
    ∷ ("coordination", "conflict" ∷ "concurrent" ∷ "race" ∷ "merge conflict" ∷ "handoff" ∷ [])
    ∷ []

-- the first rule with a needle in the text
unfoldable pub first_rule : (String → Bool) → List (String × List String) → String
first_rule mentions [] = "unknown"
first_rule mentions (rule ∷ rest) = if any mentions rule.1 then rule.0 else first_rule mentions rest

module _ (host : Host) where
  open host use {Time, Facts}

  -- the arguments of `compost` and of `propose`
  pub record Failure : Type 0 where
    pub tenant_id : String
    pub project_id : String
    pub description : String
    pub failing_step : String
    pub session_id : Option String
    pub trace_event_ids : List String
    pub taxonomy_override : Option String

  pub record Proposal : Type 0 where
    pub tenant_id : String
    pub project_id : String
    pub name : String
    pub description : String
    pub source_failure_ids : List String
    pub tests : List String
    pub rollback_plan : String

  -- `needle in description.lower()`, and the JSON objects that are read and stored
  pub record Library : Type 0 where
    pub mentions : String → String → Bool
    -- `data.get("kind")` and `data.get("fidelity")`, where it is text
    pub kind : Facts → Option String
    pub fidelity : Facts → Option String
    pub replayed : String → Facts → String → Time → Facts
    pub diagnosed : Failure → String → Time → Facts
    pub proposed_as : Proposal → Time → Facts
    pub approved_by : String → Facts

  -- edges from a node to each of its sources, with fresh identifiers by their ends
  unfoldable pub link_sources :
      String
      → List String
      → String
      → String
      → (String → String)
      → Time
      → Tables host
      → Result (Tables host)
  link_sources src [] tenant_id project_id fresh now db = ok db
  link_sources src (dst ∷ rest) tenant_id project_id fresh now db = do
    e ←
        put_edge host (plain_edge host "derived_from" src dst tenant_id project_id none) (fresh dst)
          now db
    link_sources src rest tenant_id project_id fresh now e.1

  -- every traced event is one of the scope
  unfoldable pub check_events : List String → String → String → Tables host → Result (Unit {0})
  check_events [] tenant_id project_id db = ok tt
  check_events (id ∷ rest) tenant_id project_id db =
      unless_missing permission_error (get_event id (some (tenant_id, project_id)) db.events)
      >>= λ e. check_events rest tenant_id project_id db

  module _ (manager : Keeper host) (library : Library) (now : Time) where
    -- `REPLAY_FIDELITY`, of which an unknown one is the least
    abbrev pub honest_fidelity : Option String → String
    honest_fidelity none = "non_reproducible"
    honest_fidelity (some f) =
        if contains ("exact" ∷ "environment_equivalent" ∷ "mocked" ∷ "non_reproducible" ∷ []) f
        then f
        else "non_reproducible"

    -- `record_result`
    unfoldable pub record_replay_result :
        String → Facts → String → Tables host → Result (NodeRow host × Tables host)
    record_replay_result id diff outcome db = do
      node ← own_node host manager id (some "evaluation") db
      raise_if
          (not (has_text (library.kind node.facts) "replay")
            || not (is_one_of (Status.other "replay_ready" ∷ []) node.status))
          value_error
      put_node host
          (status_write host "evaluation" node.tenant_id node.project_id (some id)
            (some (Status.other "replay_done"))
            (library.replayed outcome diff (honest_fidelity (library.fidelity node.facts)) now)
            none)
          "" now db

    -- the taxonomy of a failure
    abbrev pub taxonomy_of : Failure → String
    taxonomy_of q = elim q.taxonomy_override [
      | none ↦ first_rule (library.mentions q.description) failure_rules
      | some given ↦ given
    ]

    -- `compost`, of distinct events, with the fresh identifiers of the node and of the edges
    unfoldable pub compost :
        String → (String → String) → Failure → Tables host → Result (NodeRow host × Tables host)
    compost fresh fresh_edge q db = do
      raise_if (not (manager.is_human_text q.description)) value_error
      raise_if (not (manager.is_human_text q.failing_step)) value_error
      tenant ← effective_tenant host manager (some q.tenant_id)
      own ← require_own_project host manager q.project_id db
      session ← check_session host manager q.project_id q.session_id db
      traced ←
          check_events q.trace_event_ids (tenant_or manager.tenant_id q.tenant_id) q.project_id db
      raise_if (not (contains failure_taxonomy (taxonomy_of q))) value_error
      r ←
          put_node host
            (status_write host "failure" (tenant_or manager.tenant_id q.tenant_id) q.project_id none
              (some (Status.other "diagnosed")) (library.diagnosed q (taxonomy_of q) now) none)
            fresh now db
      after ←
          link_sources r.0.node_id q.trace_event_ids (tenant_or manager.tenant_id q.tenant_id)
            q.project_id fresh_edge now r.1
      ok (r.0, after)

    -- every source is a failure of the project
    unfoldable pub check_sources : List String → String → Tables host → Result (Unit {0})
    check_sources [] project_id db = ok tt
    check_sources (id ∷ rest) project_id db = do
      failure ← own_node host manager id (some "failure") db
      raise_if (not (failure.project_id == project_id)) permission_error
      check_sources rest project_id db

    -- `propose`, with the fresh identifiers of the node and of the edges
    unfoldable pub propose :
        String → (String → String) → Proposal → Tables host → Result (NodeRow host × Tables host)
    propose fresh fresh_edge q db = do
      tenant ← effective_tenant host manager (some q.tenant_id)
      own ← require_own_project host manager q.project_id db
      sources ← check_sources q.source_failure_ids q.project_id db
      r ←
          put_node host
            (status_write host "skill" (tenant_or manager.tenant_id q.tenant_id) q.project_id none
              (some Status.proposed) (library.proposed_as q now) none)
            fresh now db
      after ←
          link_sources r.0.node_id q.source_failure_ids (tenant_or manager.tenant_id q.tenant_id)
            q.project_id fresh_edge now r.1
      ok (r.0, after)

    -- `approve`
    abbrev pub approval_write : NodeRow host → String → String → NodeWrite host
    approval_write skill id actor =
        record (status_write host "skill" skill.tenant_id skill.project_id (some id)
          (some (Status.other "approved")) (library.approved_by actor) none) {
            authority = some "human_decision";
          }

    unfoldable pub approve :
        String → String → Bool → Tables host → Result (NodeRow host × Tables host)
    approve id actor passed db = do
      raise_if (not (manager.is_human_text actor)) value_error
      skill ← own_node host manager id (some "skill") db
      raise_if (not (is_one_of (Status.proposed ∷ []) skill.status)) value_error
      raise_if (not passed) value_error
      put_node host (approval_write skill id actor) "" now db
