-- ===== src/Invalidation/Settle/Holds.antt =====
-- Which nodes other invalidations hold, and the restoring of a node, in invalidation.py:
-- `_nodes_held_by_others`, `_restore_node` and `_release_unheld`.
use causal_continuity_engine.Prelude.{
  String, Bool, true, false, not, ◌||◌, ◌==◌, string_eq, if◌then◌else◌, List, [], ◌∷◌, ◌++◌, Option,
  none, some, contains, lookup, Result, ok, err, ◌>>=◌, resolution_input_error,
}
use causal_continuity_engine.Ontology.{Status, Impact, status_eq}
use causal_continuity_engine.Graph.Rows.{Host, NodeRow, Tables}
use causal_continuity_engine.Graph.Nodes.{put_node}
use causal_continuity_engine.Graph.Reads.{current}
use causal_continuity_engine.Invalidation.Packet.{Receipt, Engine}
use causal_continuity_engine.Invalidation.Impact.{is_blocked, is_review_required}
use causal_continuity_engine.Invalidation.Writes.{status_write}
use causal_continuity_engine.Invalidation.Settle.Stored.{Desk, is_one_of}

-- an impact that constrains a node
abbrev pub constrains : Option Impact → Bool
constrains none = false
constrains (some i) = is_review_required i || is_blocked i

abbrev pub constrained : List (String × Option Impact) → List String
constrained [] = []
constrained (e ∷ rest) =
    let later = constrained rest in if constrains e.1 then e.0 ∷ later else later

-- `_default_restored_status`
abbrev pub default_status : String → Status
default_status kind =
    if kind == "task"
    then Status.opened
    else if kind == "decision"
    then Status.accepted
    else Status.active

-- `self.tenant_id or tenant_id`
abbrev pub tenant_or : Option String → String → String
tenant_or none t = t
tenant_or (some bound) t = bound

-- a status that an impact gave
abbrev pub is_overlaid : Option Status → Bool
is_overlaid = is_one_of (Status.uncertain ∷ Status.blocked ∷ [])

module _ (host : Host) where
  open host use {Time}

  -- `_restored_status`
  abbrev pub restored_status : NodeRow host → Receipt → Status
  restored_status node receipt = elim receipt.restore_status [
    | some s ↦ s
    | none ↦ default_status node.entity_type
  ]

  module _ (engine : Engine host) (desk : Desk host) (now : Time) where
    -- the nodes that one open invalidation holds
    abbrev pub held_by : NodeRow host → List String
    held_by inv =
        constrained (desk.entries inv.facts)
        ++ (elim (desk.target_of inv.facts) [ none ↦ [] | some id ↦ id ∷ [] ])

    unfoldable pub held_by_all : String → List (NodeRow host) → List String
    held_by_all excluded [] = []
    held_by_all excluded (inv ∷ rest) =
        let later = held_by_all excluded rest in
        if inv.node_id == excluded then later else held_by inv ++ later

    -- `_nodes_held_by_others`
    unfoldable pub nodes_held_by_others :
        String → String → String → Tables host → Result (List String)
    nodes_held_by_others project_id excluded tenant_id db = do
      rows ←
          current host project_id (some "invalidation") (some (Status.opened ∷ [])) none
            (some (tenant_or engine.tenant_id tenant_id)) db
      ok (held_by_all excluded rows)

    -- `_restore_node`: whether the node was restored, and the tables
    unfoldable pub restore_node :
        NodeRow host → Receipt → Option String → Tables host → Result (Bool × Tables host)
    restore_node node receipt event_id db =
        if not (desk.may_mandate node) then ok (false, db) else do
          r ←
              put_node host
                (status_write host node.entity_type node.tenant_id node.project_id
                  (some node.node_id) (some (restored_status node receipt)) engine.codec.nothing
                  event_id)
                "" now db
          ok (true, r.1)

    -- the loop of `_release_unheld`: the released nodes, and the tables
    unfoldable pub release_all :
        List (String × NodeRow host)
        → List String
        → List Receipt
        → Option String
        → Tables host
        → Result (List String × Tables host)
    release_all nodes held [] event_id db = ok ([], db)
    release_all nodes held (r ∷ rest) event_id db =
        elim (not r.impact_applied || contains held r.node_id) [
          | true ↦ release_all nodes held rest event_id db
          | false ↦ elim (lookup r.node_id nodes) [
            | none ↦ err resolution_input_error
            | some node ↦ elim (is_overlaid node.status) [
              | false ↦ release_all nodes held rest event_id db
              | true ↦ do
                one ← restore_node node r event_id db
                l ← release_all nodes held rest event_id one.1
                ok ((if one.0 then r.node_id ∷ l.0 else l.0), l.1)
            ]
          ]
        ]

    -- `_release_unheld`, for nodes that are given
    unfoldable pub release_unheld :
        String
        → List Receipt
        → String
        → Option String
        → String
        → List (String × NodeRow host)
        → Tables host
        → Result (List String × Tables host)
    release_unheld project_id receipts excluded event_id tenant_id nodes db = do
      held ← nodes_held_by_others project_id excluded tenant_id db
      release_all nodes held receipts event_id db
