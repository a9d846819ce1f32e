-- ===== src/Invalidation/Settle/Confirm.antt =====
-- The human's answer to a gated invalidation, in invalidation.py: `confirm` and `_confirm`.
--
-- All writes of one call are in one transaction; the clock is read once, and the audit entry is not
-- of these tables.
use causal_continuity_engine.Prelude.{
  String, Bool, true, false, not, ◌||◌, ◌==◌, string_eq, if◌then◌else◌, List, [], ◌∷◌, ◌++◌, map,
  Option, none, some, Result, ok, ◌>>=◌, ◌>>◌, raise_if, value_error, permission_error,
}
use causal_continuity_engine.Core.{is_public_identifier}
use causal_continuity_engine.Ontology.{Status, status_eq}
use causal_continuity_engine.Graph.Rows.{Host, NodeRow, Tables}
use causal_continuity_engine.Graph.Nodes.{NodeWrite, put_node, get, is_malformed_id}
use causal_continuity_engine.Invalidation.Packet.{Receipt, Engine}
use causal_continuity_engine.Invalidation.Impact.{is_blocked, is_review_required}
use causal_continuity_engine.Invalidation.Writes.{
  status_write, transition, apply_impact, applied_receipt,
}
use causal_continuity_engine.Invalidation.Settle.Stored.{AffectedEntry, Desk, is_one_of}
use causal_continuity_engine.Invalidation.Settle.Preflight.{References, nodes_of, preflight}
use causal_continuity_engine.Invalidation.Settle.Holds.{release_unheld}

module _ (host : Host) (engine : Engine host) (desk : Desk host) (now : host.Time) where
  open host use {Time, Facts}

  -- what follows an attempted status: the receipt, whether it was refused, and the tables
  abbrev pub confirmed :
      NodeRow host
      → NodeRow host
      → String
      → Receipt
      → Bool × Tables host
      → Result (Receipt × Bool × Tables host)
  confirmed inv node kind receipt r = if not r.0 then ok (receipt, true, r.1) else do
    after ← get host node.node_id (some inv.tenant_id) (some inv.project_id) (some kind) r.1
    ok (applied_receipt host receipt node.status after.status, false, r.1)

  -- one round of the loop over the affected nodes
  unfoldable pub confirm_entry :
      NodeRow host
      → Option String
      → AffectedEntry × NodeRow host
      → Tables host
      → Result (Receipt × Bool × Tables host)
  confirm_entry inv event_id x db =
      if not (is_review_required x.0.impact || is_blocked x.0.impact)
      then ok (x.0.receipt, false, db)
      else (apply_impact host engine.codec now x.0.impact event_id x.1 db
          >>= confirmed inv x.1 x.0.entity_type x.0.receipt)

  -- the loop: the entries as recorded, the refused nodes, and the tables
  unfoldable pub confirm_all :
      NodeRow host
      → Option String
      → List (AffectedEntry × NodeRow host)
      → Tables host
      → Result (List AffectedEntry × List String × Tables host)
  confirm_all inv event_id [] db = ok ([], [], db)
  confirm_all inv event_id (x ∷ rest) db = do
    r ← confirm_entry inv event_id x db
    l ← confirm_all inv event_id rest r.2
    ok (record x.0 { receipt = r.0 } ∷ l.0, (if r.1 then x.0.receipt.node_id ∷ l.1 else l.1), l.2)

  -- what a confirmation records
  pub record Confirmed : Type 0 where
    pub transition : Receipt
    pub affected : List AffectedEntry
    pub refused : List String
    pub tables : Tables host

  -- the status changes of an accepted confirmation
  unfoldable pub apply_confirmed :
      NodeRow host → Option String → References host → Tables host → Result Confirmed
  apply_confirmed inv event_id p db = do
    t ←
        (transition host engine.codec now p.target Status.invalidated event_id db
          >>= confirmed inv p.target p.target.entity_type p.transition)
    l ← confirm_all inv event_id p.affected t.2
    ok (record {
      transition = t.0;
      affected = l.0;
      refused = if t.1 then p.target.node_id ∷ l.1 else l.1;
      tables = l.2;
    })

  -- what is recorded where the human says no
  abbrev pub nothing_applied : References host → Tables host → Confirmed
  nothing_applied p db = record {
    transition = p.transition;
    affected = map (λ (x : AffectedEntry × NodeRow host). x.0) p.affected;
    refused = [];
    tables = db;
  }

  abbrev pub confirmation_write :
      NodeRow host → String → String → Bool → Option String → Confirmed → NodeWrite host
  confirmation_write inv id actor accept event_id c =
      record (status_write host "invalidation" inv.tenant_id inv.project_id (some id)
        (some (if accept then Status.opened else Status.rejected))
        (desk.confirmation actor now accept c.affected c.transition c.refused) event_id) {
          authority = some "human_decision";
        }

  -- the sweep after a rejection
  abbrev pub sweep :
      NodeRow host
      → String
      → Option String
      → References host
      → Confirmed
      → Tables host
      → Result (List String × Tables host)
  sweep inv id event_id p c db =
      release_unheld host engine desk now inv.project_id
        (map (λ (e : AffectedEntry). e.receipt) c.affected ++ c.transition ∷ []) id event_id
        inv.tenant_id (nodes_of host p) db

  -- the writes of `_confirm`
  unfoldable pub settle_confirmation :
      NodeRow host
      → String
      → String
      → Bool
      → Option String
      → References host
      → Tables host
      → Result (NodeRow host × Tables host)
  settle_confirmation inv id actor accept event_id p db = do
    c ← if accept then apply_confirmed inv event_id p db else ok (nothing_applied p db)
    out ← put_node host (confirmation_write inv id actor accept event_id c) "" now c.tables
    released ← if accept then ok ([], out.1) else sweep inv id event_id p c out.1
    ok (out.0, released.1)

  abbrev pub is_unowned : String → Bool
  is_unowned tenant_id = elim engine.tenant_id [
    | none ↦ false
    | some bound ↦ not (tenant_id == bound)
  ]

  -- `_confirm`
  unfoldable pub confirm_locked :
      String → String → Bool → Option String → Tables host → Result (NodeRow host × Tables host)
  confirm_locked id actor accept event_id db = do
    inv ← get host id engine.tenant_id none none db
    raise_if (is_unowned inv.tenant_id) permission_error
    raise_if (not (is_one_of (Status.pending_confirmation ∷ []) inv.status)) value_error
    p ← preflight host desk now inv db
    settle_confirmation inv id actor accept event_id p db

  -- `confirm`
  unfoldable pub confirm :
      String → String → Bool → Option String → Tables host → Result (NodeRow host × Tables host)
  confirm id actor accept event_id db = do
    raise_if (not (is_public_identifier id)) value_error
    raise_if (is_malformed_id event_id) value_error
    raise_if (not (engine.is_human_text actor)) value_error
    confirm_locked id actor accept event_id db
