-- ===== src/Invalidation/Writes.antt =====
-- The status writes of invalidation.py: `_transition` and `_apply_impact`, and the loop over the
-- affected nodes.
use causal_continuity_engine.Prelude.{
  String, Bool, true, false, not, ◌&&◌, ◌||◌, ◌==◌, string_eq, if◌then◌else◌, List, [], ◌∷◌, Option,
  none, some, Result, ok, err, ◌>>=◌, Error, key_error,
}
use causal_continuity_engine.Ontology.{Status, Impact, is_valid_transition, status_eq}
use causal_continuity_engine.Graph.Rows.{Host, NodeRow, Tables}
use causal_continuity_engine.Graph.Nodes.{NodeWrite, put_node, get}
use causal_continuity_engine.Graph.Edges.{EdgeWrite, put_edge}
use causal_continuity_engine.Invalidation.Impact.{impact_status, is_blocked, is_review_required}
use causal_continuity_engine.Invalidation.Packet.{Receipt, Affected, Codec, Trigger, Names}

-- `except KeyError: raise …`
abbrev pub unless_missing : {A : Type 0} → Error → Result A → Result A
unless_missing e (ok a) = ok a
unless_missing e (err key_error) = err e
unless_missing e (err other) = err other

-- `after == before`, on statuses that may be null
abbrev pub same_status : Option Status → Option Status → Bool
same_status none none = true
same_status (some s) (some t) = s == t
same_status _ _ = false

module _ (host : Host) where
  open host use {Time, Facts, Float}

  -- a write of `put_node` that gives a status and data
  abbrev pub status_write :
      String
      → String
      → String
      → Option String
      → Option Status
      → Facts
      → Option String
      → NodeWrite host
  status_write kind tenant_id project_id id status facts event_id = record {
    entity_type = kind;
    tenant_id = tenant_id;
    project_id = project_id;
    facts = facts;
    node_id = id;
    status = status;
    criticality = none;
    authority = none;
    confidence = none;
    scope = none;
    valid_from = none;
    valid_to = none;
    reopen_validity = false;
    event_id = event_id;
    extractor = none;
    extractor_version = none;
  }

  -- the receipt of an applied status
  abbrev pub applied_receipt : Receipt → Option Status → Option Status → Receipt
  applied_receipt receipt before after = record receipt {
    impact_applied = not (same_status after before);
    applied_status = after;
  }

  module _ (codec : Codec host) (now : Time) where
    -- `_transition`: whether the status changed, and the tables
    unfoldable pub transition :
        NodeRow host → Status → Option String → Tables host → Result (Bool × Tables host)
    transition node status event_id db =
        if node.entity_type == "assumption"
          && not (
              is_valid_transition (elim node.status [ none ↦ Status.proposed | some s ↦ s ]) status)
        then ok (false, db)
        else do
          r ←
              put_node host
                (status_write node.entity_type node.tenant_id node.project_id (some node.node_id)
                  (some status) codec.nothing event_id)
                "" now db
          ok (true, r.1)

    -- `_apply_impact`
    unfoldable pub apply_impact :
        Impact → Option String → NodeRow host → Tables host → Result (Bool × Tables host)
    apply_impact impact event_id node db = elim (impact_status node.entity_type impact) [
      | none ↦ ok (true, db)
      | some status ↦ transition node status event_id db
    ]

    -- `c["impact_applied"]` and `c["applied_status"]`
    abbrev pub record_applied : Affected host → Option Status → Option Status → Affected host
    record_applied c before after = record c { receipt = applied_receipt c.receipt before after }

    -- one round of the loop over `classified`: the entry as recorded, whether it was refused, and
    -- the tables
    unfoldable pub apply_status :
        Trigger host → Affected host → Tables host → Result (Affected host × Bool × Tables host)
    apply_status q c db =
        if not (is_review_required c.impact || is_blocked c.impact) then ok (c, false, db) else do
          node ←
              get host c.receipt.node_id (some q.tenant_id) (some q.project_id) (some c.entity_type)
                db
          r ← apply_impact c.impact q.event_id node db
          if not r.0 then ok (c, true, r.1) else do
            after ←
                get host c.receipt.node_id (some q.tenant_id) (some q.project_id)
                  (some c.entity_type) r.1
            ok (record_applied c node.status after.status, false, r.1)

    -- the edge from the invalidation to an affected node
    abbrev pub affects_edge : Names → Trigger host → String → Affected host → Facts → EdgeWrite host
    affects_edge names q inv c facts = record {
      edge_type = "affects";
      src_id = inv;
      dst_id = c.receipt.node_id;
      tenant_id = q.tenant_id;
      project_id = q.project_id;
      strength = c.strength;
      facts = some facts;
      valid_from = none;
      valid_to = none;
      event_id = q.event_id;
      edge_id = none;
    }

    -- the loop without a human gate: the entries as recorded, the refused nodes, and the tables
    unfoldable pub apply_all :
        Names
        → Trigger host
        → String
        → List (Affected host)
        → Tables host
        → Result (List (Affected host) × List String × Tables host)
    apply_all names q inv [] db = ok ([], [], db)
    apply_all names q inv (c ∷ rest) db = do
      r ← apply_status q c db
      e ←
          put_edge host (affects_edge names q inv c (codec.impact_of (some c.impact)))
            (names.edge "affects" c.receipt.node_id) now r.2
      l ← apply_all names q inv rest e.1
      ok (r.0 ∷ l.0, (if r.1 then c.receipt.node_id ∷ l.1 else l.1), l.2)

    -- the loop with one: edges only
    unfoldable pub announce_all :
        Names → Trigger host → String → List (Affected host) → Tables host → Result (Tables host)
    announce_all names q inv [] db = ok db
    announce_all names q inv (c ∷ rest) db = do
      e ←
          put_edge host (affects_edge names q inv c (codec.impact_of none))
            (names.edge "affects" c.receipt.node_id) now db
      announce_all names q inv rest e.1
