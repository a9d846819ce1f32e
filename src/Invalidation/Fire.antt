-- ===== src/Invalidation/Fire.antt =====
-- Firing an invalidation, in invalidation.py: `fire` and `_fire`.
--
-- All writes of one call are in one transaction: an exception leaves the tables as they were. The
-- clock is read once; the writes of the policy and of the audit log are not of these tables.
use causal_continuity_engine.Invalidation.Assess.{assess}
use causal_continuity_engine.Invalidation.Writes.{
  status_write, transition, applied_receipt, apply_all, announce_all,
}
use causal_continuity_engine.Prelude.{
  String, Bool, true, false, not, ◌&&◌, ◌||◌, ◌==◌, string_eq, if◌then◌else◌, List, [], ◌∷◌, none,
  some, contains, Result, ok, ◌>>=◌, ◌>>◌, raise_if, value_error, permission_error,
}
use causal_continuity_engine.Core.{is_public_identifier}
use causal_continuity_engine.Ontology.{Status, status_eq}
use causal_continuity_engine.Graph.Rows.{Host, NodeRow, Tables, outside_unit}
use causal_continuity_engine.Graph.Nodes.{NodeWrite, put_node, get, is_malformed_id}
use causal_continuity_engine.Graph.Edges.{EdgeWrite, put_edge}
use causal_continuity_engine.Invalidation.Impact.{trigger_types, criticality_or_medium}
use causal_continuity_engine.Invalidation.Packet.{
  Receipt, Affected, Explanation, Codec, Engine, Trigger, Names,
}

module _ (host : Host) where
  open host use {Time, Facts, Float, tenths}

  -- the invalidation as it is first written
  abbrev pub invalidation_write :
      Codec host
      → Trigger host
      → NodeRow host
      → List (Affected host)
      → Explanation host
      → NodeWrite host
  invalidation_write codec q target classified e =
      record (status_write host "invalidation" q.tenant_id q.project_id q.invalidation_id
        (some
          (if e.requires_human_confirmation then Status.pending_confirmation else Status.opened))
        (codec.explained e classified) q.event_id) {
          criticality = some (criticality_or_medium target.criticality);
          confidence = some q.trigger_confidence;
        }

  abbrev pub link_edge : Trigger host → String → String → String → EdgeWrite host
  link_edge q kind inv dst = record {
    edge_type = kind;
    src_id = inv;
    dst_id = dst;
    tenant_id = q.tenant_id;
    project_id = q.project_id;
    strength = tenths 10;
    facts = none;
    valid_from = none;
    valid_to = none;
    event_id = q.event_id;
    edge_id = none;
  }

  module _ (engine : Engine host) (names : Names) (now : Time) where
    -- the edges from the invalidation to its target and to its evidence
    unfoldable pub link_invalidation : Trigger host → String → Tables host → Result (Tables host)
    link_invalidation q inv db = do
      e ←
          put_edge host (link_edge q "invalidates" inv q.target_node_id)
            (names.edge "invalidates" q.target_node_id) now db
      elim q.trigger_evidence_id [
        | none ↦ ok e.1
        | some id ↦ do
          d ←
              put_edge host (link_edge q "derived_from" inv id) (names.edge "derived_from" id) now
                e.1
          ok d.1
      ]

    -- the target's status: its receipt, whether the lifecycle refused, and the tables
    unfoldable pub apply_target :
        Trigger host → NodeRow host → Receipt → Tables host → Result (Receipt × Bool × Tables host)
    apply_target q target receipt db = do
      r ← transition host engine.codec now target Status.invalidated q.event_id db
      if not r.0 then ok (receipt, true, r.1) else do
        after ←
            get host q.target_node_id (some q.tenant_id) (some q.project_id)
              (some target.entity_type) r.1
        ok (applied_receipt host receipt target.status after.status, false, r.1)

    -- a later version of the invalidation, with more data
    abbrev pub note : Trigger host → String → Facts → Tables host → Result (Tables host)
    note q inv facts db = do
      r ←
          put_node host
            (status_write host "invalidation" q.tenant_id q.project_id (some inv) none facts
              q.event_id)
            "" now db
      ok r.1

    -- the state changes where no human is asked: the refused nodes, and the tables
    unfoldable pub apply_changes :
        Trigger host
        → String
        → NodeRow host
        → Receipt
        → List (Affected host)
        → Tables host
        → Result (List String × Tables host)
    apply_changes q inv target receipt classified db = do
      t ← apply_target q target receipt db
      l ← apply_all host engine.codec now names q inv classified t.2
      noted ← note q inv (engine.codec.applied l.0 t.0) l.2
      ok ((if t.1 then q.target_node_id ∷ l.1 else l.1), noted)

    -- the record of the refused nodes, where there are any
    unfoldable pub note_refused :
        Trigger host → String → List String → Tables host → Result (Tables host)
    note_refused q inv [] db = ok db
    note_refused q inv (id ∷ refused) db =
        note q inv
          (engine.codec.unapplied (id ∷ refused) (not (contains (id ∷ refused) q.target_node_id)))
          db

    -- the writes of `_fire`, once the impact is known
    unfoldable pub write_invalidation :
        Trigger host
        → NodeRow host
        → List (Affected host)
        → Explanation host
        → Tables host
        → Result (String × Tables host)
    write_invalidation q target classified e db = do
      inv ←
          put_node host (invalidation_write engine.codec q target classified e) names.invalidation
            now db
      linked ← link_invalidation q inv.0.node_id inv.1
      changed ←
          if e.requires_human_confirmation
          then (do
            announced ← announce_all host engine.codec now names q inv.0.node_id classified linked
            ok ([], announced))
          else apply_changes q inv.0.node_id target e.target_transition classified linked
      noted ← note_refused q inv.0.node_id changed.0 changed.1
      ok (inv.0.node_id, noted)

    -- `_fire`: the invalidation, whether the policy is downgraded, and the tables
    unfoldable pub fire_locked :
        Trigger host → Tables host → Result (NodeRow host × Bool × Tables host)
    fire_locked q db = do
      a ← assess host engine now q db
      w ← write_invalidation q a.0 a.1 a.2 db
      inv ← get host w.0 (some q.tenant_id) (some q.project_id) (some "invalidation") w.1
      ok (inv, a.2.severity == "critical", w.1)

    -- the checks of `fire`
    unfoldable pub is_malformed_request : Trigger host → Bool
    is_malformed_request q =
        is_malformed_id q.invalidation_id
        || not (is_public_identifier q.tenant_id)
        || not (is_public_identifier q.project_id)
        || not (is_public_identifier q.target_node_id)
        || is_malformed_id q.trigger_evidence_id
        || is_malformed_id q.event_id
        || not (contains trigger_types q.trigger_type)
        || outside_unit host q.trigger_confidence
        || not (engine.is_human_text q.actor)
        || (not (q.reason == "") && not (engine.is_human_text q.reason))

    abbrev pub is_foreign : String → Bool
    is_foreign tenant_id = elim engine.tenant_id [
      | none ↦ false
      | some bound ↦ not (tenant_id == bound)
    ]

    -- `fire`
    unfoldable pub fire : Trigger host → Tables host → Result (NodeRow host × Bool × Tables host)
    fire q db = do
      raise_if (is_malformed_request q) value_error
      raise_if (is_foreign q.tenant_id) permission_error
      fire_locked q db
