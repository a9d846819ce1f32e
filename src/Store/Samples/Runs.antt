-- ===== src/Store/Samples/Runs.antt =====
-- Runs of the logs of store.py on a concrete hash, and the theorems at them.
use causal_continuity_engine.Core.{is_public_identifier}
use causal_continuity_engine.Store.Checks.{is_stored_event, is_event_entry, is_committed}
use causal_continuity_engine.Prelude.{
  ◌+◌, String, Bool, true, false, [], ◌∷◌, ◌++◌, none, some, length, take, ok, err, ◌≡◌, ◌≢◌, refl,
  duplicate_event_error, payload_mismatch_error, subst, ap, Result,
}
use causal_continuity_engine.Store.Rows.{
  Row, Table, audit_log, AuditEntry, Entry, event, audit, intact,
}
use causal_continuity_engine.Store.Rows
use causal_continuity_engine.Store.Log
use causal_continuity_engine.Store.Log.{Db, Delivery, digest, table_rows}
use causal_continuity_engine.Store.Anchor
use causal_continuity_engine.Store.Anchor.{
  Anchor, AnchorReport, holds, tail_removed, history_rewritten,
}
use causal_continuity_engine.Store.Append.{redelivery, Continued, here, delivered}
use causal_continuity_engine.Store.Tamper.{entries, tip_determines_entries}
use causal_continuity_engine.Store.Published.{anchor_fixes_history, anchor_survives_appends}
use causal_continuity_engine.Store.Samples.{
  Tree, nil, leaf, tree_beq, hashing, render, collisionless,
}

abbrev empty : Db Tree Tree
empty = record {
  event_rows = [];
  event_seq = 0;
  audit_rows = [];
  mismatches = [];
  transaction_depth = 0;
}

abbrev opened : Delivery Tree Tree
opened = record {
  tenant_id = "t";
  project_id = "p";
  source_type = "github:issues";
  source_id = none;
  idempotency_key = "d1";
  observed_at = none;
  valid_from = none;
  valid_to = none;
  actor_type = some "service";
  actor_id = some "cce";
  authority = "human_intent";
  sensitivity = "internal";
  capture_mode = "full";
  schema_version = "cce.event.v1";
  payload = some (leaf "{}");
  payload_digest = none;
}

abbrev edited : Delivery Tree Tree
edited = record opened { payload = some (leaf "{\"edited\":true}") }

abbrev first_row : Row Tree Tree
first_row = Log.insert_event hashing render opened "evt_1" "2026-01-01" empty

abbrev one_event : Db Tree Tree
one_event = record empty { event_rows = first_row ∷ []; event_seq = 1 }

accepted :
    Log.append_event hashing render opened "evt_1" "2026-01-01" empty ≡ (one_event, ok first_row)
unfolding Log.append_event Log.append_locked Log.find_key Log.insert_event Log.event_entry
    is_stored_event is_event_entry is_committed is_public_identifier tree_beq
accepted = refl

-- another item, before the first one is delivered again
abbrev other : Delivery Tree Tree
other = record opened { idempotency_key = "d2" }

abbrev second_event : Row Tree Tree
second_event = Log.insert_event hashing render other "evt_2" "2026-01-02" one_event

abbrev two_events : Db Tree Tree
two_events = record empty { event_rows = first_row ∷ second_event ∷ []; event_seq = 2 }

accepted_next :
    Log.append_event hashing render other "evt_2" "2026-01-02" one_event
    ≡ (two_events, ok second_event)
unfolding Log.append_event Log.append_locked Log.find_key Log.insert_event Log.event_entry
    is_stored_event is_event_entry is_committed is_public_identifier tree_beq
accepted_next = refl

meanwhile : Continued hashing render one_event two_events
unfolding Log.append_locked Log.append_event
meanwhile =
    subst (Continued hashing render one_event)
      (ap (λ (r : Db Tree Tree × Result (Row Tree Tree)). r.0) accepted_next)
      (delivered here false other "evt_2" "2026-01-02")

redelivery_example :
    (digest hashing render edited ≡ digest hashing render opened
      → Log.append_event hashing render edited "evt_3" "2026-01-03" two_events
        ≡ (two_events, err duplicate_event_error))
    × (digest hashing render edited ≢ digest hashing render opened
        → let (after, answer) =
            Log.append_event hashing render edited "evt_3" "2026-01-03" two_events in
          (answer ≡ err payload_mismatch_error)
          × (after.event_rows ≡ two_events.event_rows)
          × (after.event_seq ≡ two_events.event_seq)
          × (after.audit_rows ≡ two_events.audit_rows)
          × (length after.mismatches ≡ length two_events.mismatches + 1))
redelivery_example =
    redelivery hashing render opened edited "evt_1" "evt_3" "2026-01-01" "2026-01-03" empty
      one_event two_events first_row accepted meanwhile (refl, refl, refl)

abbrev action : String → AuditEntry
action name = record {
  at = "2026-01-01";
  actor = "cce";
  action = name;
  object_id = none;
  before_ref = none;
  after_ref = none;
  authority = none;
  detail = none;
}

abbrev one_audit : Db Tree Tree
one_audit = Log.write_audit hashing render (action "policy.grant") empty

abbrev two_audits : Db Tree Tree
two_audits = Log.write_audit hashing render (action "policy.revoke") one_audit

abbrev published : Anchor Tree
published = record {
  schema_version = "cce.anchor.v1";
  table = audit_log;
  count = 1;
  tip = Rows.link hashing render nil (audit (action "policy.grant"));
  intact_at_export = true;
  exported_at = "2026-01-01";
  binding = none;
}

abbrev any_text : String → Bool
any_text s = true

exported : Anchor.export_anchor hashing render audit_log none "2026-01-01" one_audit ≡ ok published
unfolding Anchor.export_anchor Rows.verify_chain Rows.verify_rows Rows.row_problem
    Rows.payload_problem Rows.hash_problem Rows.unavailable Rows.chain_tip Rows.tip_from Rows.link
    Rows.in_order Rows.place Log.write_audit Log.audit_row render tree_beq
exported = refl

still_holds :
    Anchor.verify_against_anchor hashing render any_text none published two_audits
    ≡ holds false 1 2 1
unfolding Anchor.verify_against_anchor Anchor.document_problem Anchor.binding_problem
    Anchor.compare_rows Anchor.prefix_tip Rows.verify_chain Rows.verify_rows Rows.row_problem
    Rows.payload_problem Rows.hash_problem Rows.unavailable Rows.chain_tip Rows.tip_from Rows.link
    Rows.in_order Rows.place Log.write_audit Log.audit_row render tree_beq
still_holds = refl

anchor_fixes_history_example :
    entries (take (length (table_rows audit_log one_audit)) (table_rows audit_log two_audits))
    ≡ entries (table_rows audit_log one_audit)
anchor_fixes_history_example =
    anchor_fixes_history hashing render collisionless any_text audit_log none none "2026-01-01"
      one_audit two_audits published false 1 2 1 exported still_holds

abbrev second_row : Row Tree Tree
second_row = Log.audit_row hashing render (action "policy.revoke") one_audit

two_rows : table_rows audit_log two_audits ≡ table_rows audit_log one_audit ++ second_row ∷ []
unfolding Log.write_audit Log.audit_row Rows.in_order Rows.place
two_rows = refl

two_intact :
    Rows.verify_chain hashing render (table_rows audit_log two_audits)
    ≡ intact 2 (Rows.chain_tip hashing render (table_rows audit_log two_audits)) 0
unfolding Rows.verify_chain Rows.verify_rows Rows.row_problem Rows.payload_problem Rows.hash_problem
    Rows.unavailable Rows.chain_tip Rows.tip_from Rows.link Rows.in_order Rows.place Log.write_audit
    Log.audit_row render tree_beq
two_intact = refl

anchor_survives_appends_example :
    Anchor.verify_against_anchor hashing render any_text none published two_audits
    ≡ holds false
        (length (table_rows audit_log one_audit))
        (length (table_rows audit_log two_audits))
        1
anchor_survives_appends_example =
    anchor_survives_appends hashing render collisionless any_text audit_log none "2026-01-01"
      one_audit two_audits (second_row ∷ []) published 2 0
      (Rows.chain_tip hashing render (table_rows audit_log two_audits)) refl exported two_rows
      two_intact

tip_determines_entries_example :
    entries (table_rows audit_log two_audits) ≡ entries (table_rows audit_log two_audits)
tip_determines_entries_example =
    tip_determines_entries hashing render collisionless (table_rows audit_log two_audits)
      (table_rows audit_log two_audits) 2 0 0
      (Rows.chain_tip hashing render (table_rows audit_log two_audits)) two_intact two_intact
