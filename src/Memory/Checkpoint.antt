-- ===== src/Memory/Checkpoint.antt =====
-- Checkpoints, in memory.py: `checkpoint` and `last_safe_checkpoint`.
use causal_continuity_engine.Core.{labelled}
use causal_continuity_engine.Prelude.{
  String, Bool, not, ◌==◌, string_eq, if◌then◌else◌, List, [], ◌∷◌, filter, Option, none, some,
  Result, ok, ◌>>=◌, ◌>>◌, raise_if, value_error,
}
use causal_continuity_engine.Ontology.{Status, status_eq}
use causal_continuity_engine.Graph.Rows.{Host, NodeRow, Tables}
use causal_continuity_engine.Graph.Nodes.{NodeWrite, put_node, is_malformed_id}
use causal_continuity_engine.Graph.Reads.{current}
use causal_continuity_engine.Graph.Edges.{EdgeWrite, put_edge}
use causal_continuity_engine.Invalidation.Writes.{status_write}
use causal_continuity_engine.Invalidation.Settle.Stored.{is_one_of}
use causal_continuity_engine.Invalidation.Settle.Holds.{tenant_or}
use causal_continuity_engine.Memory.Rows.{
  Tier, Shelves, Keeper, effective_tenant, require_own_project, require_node,
}
use causal_continuity_engine.Memory.Tiers.{promote}

module _ (host : Host) where
  open host use {Time, Facts, tenths}

  -- an edge of full strength, from a session to what it made, or between versions of an action
  abbrev pub plain_edge :
      String → String → String → String → String → Option String → EdgeWrite host
  plain_edge kind src dst tenant_id project_id event_id = record {
    edge_type = kind;
    src_id = src;
    dst_id = dst;
    tenant_id = tenant_id;
    project_id = project_id;
    strength = tenths 10;
    facts = none;
    valid_from = none;
    valid_to = none;
    event_id = event_id;
    edge_id = none;
  }

  -- the edge of a node that a session produced, where there is a session
  unfoldable pub link_session :
      Option String
      → String
      → String
      → String
      → Option String
      → String
      → Time
      → Tables host
      → Result (Tables host)
  link_session none dst tenant_id project_id event_id fresh now db = ok db
  link_session (some session_id) dst tenant_id project_id event_id fresh now db =
      put_edge host (plain_edge "produces" session_id dst tenant_id project_id event_id) fresh now
        db
      >>= λ e. ok e.1

  module _ (keeper : Keeper host) where
    -- the session has to be one of the project
    unfoldable pub require_session : String → Option String → Tables host → Result (Unit {0})
    require_session project_id none db = ok tt
    require_session project_id (some id) db = do
      session ← require_node host keeper project_id id db
      raise_if (not (session.entity_type == "session")) value_error

    -- the arguments of `checkpoint`; `working_state` is finite JSON
    pub record Milestone : Type 0 where
      pub tenant_id : String
      pub project_id : String
      pub session_id : Option String
      pub label : String
      pub working_state : Facts
      pub event_id : Option String
      pub is_verified : Bool

    abbrev pub checkpoint_write : (Milestone → Facts) → Milestone → NodeWrite host
    checkpoint_write facts c =
        status_write host "checkpoint" (tenant_or keeper.tenant_id c.tenant_id) c.project_id none
          (some (if c.is_verified then Status.verified else Status.other "unverified")) (facts c)
          c.event_id

    -- `checkpoint`, with the data of the node, the fresh identifiers of the node and the edge, and
    -- the reason of the assignment
    unfoldable pub checkpoint :
        (Milestone → Facts)
        → String
        → String
        → Time
        → Milestone
        → Shelves host
        → Result (NodeRow host × Shelves host)
    checkpoint facts fresh fresh_edge now c s = do
      raise_if (not (keeper.is_human_text c.label)) value_error
      raise_if (is_malformed_id c.session_id) value_error
      tenant ← effective_tenant host keeper (some c.tenant_id)
      own ← require_own_project host keeper c.project_id s.tables
      session ← require_session c.project_id c.session_id s.tables
      r ← put_node host (checkpoint_write facts c) fresh now s.tables
      linked ←
          link_session c.session_id r.0.node_id (tenant_or keeper.tenant_id c.tenant_id)
            c.project_id c.event_id fresh_edge now r.1
      after ←
          promote host keeper now c.project_id r.0.node_id Tier.l1 "cce"
            (some (labelled "checkpoint " c.label)) (record s { tables = linked })
      ok (r.0, after)

    -- `cps[-1] if cps else None`
    abbrev pub last_node : List (NodeRow host) → Option (NodeRow host)
    last_node [] = none
    last_node (x ∷ rest) = elim (last_node rest) [ none ↦ some x | some later ↦ some later ]

    abbrev pub is_safe : NodeRow host → Bool
    is_safe node = is_one_of (Status.verified ∷ []) node.status

    -- `last_safe_checkpoint`
    unfoldable pub last_safe_checkpoint : String → Tables host → Result (Option (NodeRow host))
    last_safe_checkpoint project_id db = do
      own ← require_own_project host keeper project_id db
      rows ← current host project_id (some "checkpoint") none none keeper.tenant_id db
      ok (last_node (filter is_safe rows))
