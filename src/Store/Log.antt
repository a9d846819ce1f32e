-- ===== src/Store/Log.antt =====
-- Writes to the two logs of store.py: `_append_event` from the writer lock on, and `audit`. The
-- fields of a delivery are those that passed the checks above the lock; `now` and `event_id` are
-- what `utcnow()` and `new_id("event")` return.
use causal_continuity_engine.Store.Checks.{is_stored_event}
use causal_continuity_engine.Prelude.{
  ℕ, suc, String, Bool, true, false, not, ◌&&◌, ◌==◌, string_eq, ltb, if◌then◌else◌, List, [], ◌∷◌,
  ◌++◌, Option, none, some, length, Result, ok, err, runtime_error, duplicate_event_error,
  payload_mismatch_error, value_error,
}
use mathlib.Core.Option.{get_or}
use causal_continuity_engine.Store.Rows.{
  Hashing, Entry, EventEntry, AuditEntry, event, audit, Row, Table, events, audit_log, in_order,
}
use causal_continuity_engine.Store.Rows

pub record Mismatch (Digest : Type 0) : Type 0 where
  pub idempotency_key : String
  pub recorded : Digest
  pub delivered : Digest
  pub at : String

-- The rows of the two logs stand in the order of their INSERT, and are read in order of `seq`.
pub record Db (Digest Text : Type 0) : Type 0 where
  pub event_rows : List (Row Digest Text)
  pub event_seq : ℕ
  pub audit_rows : List (Row Digest Text)
  pub mismatches : List (Mismatch Digest)
  pub transaction_depth : ℕ

-- the arguments of `_append_event`; `payload` is its canonical text
pub record Delivery (Digest Text : Type 0) : Type 0 where
  pub tenant_id : String
  pub project_id : String
  pub source_type : String
  pub source_id : Option String
  pub idempotency_key : String
  pub observed_at : Option String
  pub valid_from : Option String
  pub valid_to : Option String
  pub actor_type : Option String
  pub actor_id : Option String
  pub authority : String
  pub sensitivity : String
  pub capture_mode : String
  pub schema_version : String
  pub payload : Option Text
  pub payload_digest : Option Digest

-- the rows of a table, in order of `seq`
abbrev pub table_rows : {D T : Type 0} → Table → Db D T → List (Row D T)
table_rows events db = in_order db.event_rows
table_rows audit_log db = in_order db.audit_rows

module _ (h : Hashing) (render : h.Digest → Entry h.Digest → h.Text) where
  open h use {Digest, digest_eq, Text, empty_text, sha256_hex, genesis}

  -- `stored_digest`
  abbrev pub stored_digest : Delivery Digest Text → Digest
  stored_digest d = sha256_hex (get_or d.payload empty_text)

  -- `digest = payload_digest or sha256_hex(payload_text or "")`
  abbrev pub digest : Delivery Digest Text → Digest
  digest d = get_or d.payload_digest (stored_digest d)

  abbrev pub has_key : Delivery Digest Text → Entry Digest → Bool
  has_key d (event e) =
      e.tenant_id == d.tenant_id
      && e.project_id == d.project_id
      && e.idempotency_key == d.idempotency_key
  has_key d (audit e) = false

  -- the SELECT by tenant, project and idempotency key: the recorded payload digest
  unfoldable pub find_key : Delivery Digest Text → List (Row Digest Text) → Option Digest
  find_key d [] = none
  find_key d (row ∷ rows) =
      let rest = find_key d rows in
      elim row.entry [
        | audit e ↦ rest
        | event e ↦ if has_key d (event e) then some e.payload_digest else rest
      ]

  -- the `entry` dict
  unfoldable pub event_entry : Delivery Digest Text → ℕ → String → String → EventEntry Digest
  event_entry d n event_id now = record {
    event_id = event_id;
    tenant_id = d.tenant_id;
    project_id = d.project_id;
    source_type = d.source_type;
    source_id = d.source_id;
    idempotency_key = d.idempotency_key;
    observed_at = get_or d.observed_at now;
    recorded_at = now;
    valid_from = some (get_or d.valid_from (get_or d.observed_at now));
    valid_to = d.valid_to;
    actor_type = d.actor_type;
    actor_id = d.actor_id;
    authority = d.authority;
    sensitivity = d.sensitivity;
    capture_mode = d.capture_mode;
    payload_digest = digest d;
    stored_payload_digest = some (stored_digest d);
    schema_version = d.schema_version;
    seq = n;
  }

  -- the INSERT, with the sequence number and the hashes computed before it
  unfoldable pub insert_event :
      Delivery Digest Text → String → String → Db Digest Text → Row Digest Text
  insert_event d event_id now db =
      let n = suc db.event_seq in
      let entry : Entry Digest = event (event_entry d n event_id now) in
      let prev = Rows.chain_tip h render (table_rows events db) in
      record {
        entry = entry;
        seq = n;
        payload = d.payload;
        prev_hash = prev;
        entry_hash = Rows.link h render prev entry;
      }

  -- the row of `payload_mismatches`
  unfoldable pub flag : Delivery Digest Text → Digest → String → Mismatch Digest
  flag d recorded now = record {
    idempotency_key = d.idempotency_key;
    recorded = recorded;
    delivered = digest d;
    at = now;
  }

  -- `_append_event`, from the writer lock on; `joined` is `_join_transaction`. A rejection that
  -- raises leaves the flag of a mismatch, and nothing else, behind.
  unfoldable pub append_locked :
      Bool
      → Delivery Digest Text
      → String
      → String
      → Db Digest Text
      → Db Digest Text × Result (Row Digest Text)
  append_locked joined d event_id now db =
      if not joined && ltb 0 db.transaction_depth
      then (db, err runtime_error)
      else elim (find_key d db.event_rows) [
        | some recorded ↦
            if digest_eq.beq recorded (digest d) then (db, err duplicate_event_error) else (
              record db { mismatches = db.mismatches ++ flag d recorded now ∷ [] },
              err payload_mismatch_error,
            )
        | none ↦
            let row = insert_event d event_id now db in
            if not (is_stored_event h row) then (db, err value_error) else (
              record db { event_rows = db.event_rows ++ row ∷ []; event_seq = suc db.event_seq },
              ok row,
            )
      ]

  -- `append_event`
  unfoldable pub append_event :
      Delivery Digest Text
      → String
      → String
      → Db Digest Text
      → Db Digest Text × Result (Row Digest Text)
  append_event = append_locked false

  -- a savepoint: a raise rolls the database back
  abbrev rolled_back :
      Db Digest Text
      → Db Digest Text × Result (Row Digest Text)
      → Db Digest Text × Result (Row Digest Text)
  rolled_back before (after, ok row) = (after, ok row)
  rolled_back before (after, err e) = (before, err e)

  -- `_append_event_in_transaction`
  unfoldable pub append_event_in_transaction :
      Delivery Digest Text
      → String
      → String
      → Db Digest Text
      → Db Digest Text × Result (Row Digest Text)
  append_event_in_transaction d event_id now db =
      if ltb 0 db.transaction_depth
      then rolled_back db (append_locked true d event_id now db)
      else (db, err runtime_error)

  -- the row that `audit` inserts; `seq` is the table's row number
  unfoldable pub audit_row : AuditEntry → Db Digest Text → Row Digest Text
  audit_row entry db =
      let prev = Rows.chain_tip h render (table_rows audit_log db) in
      record {
        entry = audit entry;
        seq = suc (length db.audit_rows);
        payload = none;
        prev_hash = prev;
        entry_hash = Rows.link h render prev (audit entry);
      }

  -- `audit`, from the validated entry on
  unfoldable pub write_audit : AuditEntry → Db Digest Text → Db Digest Text
  write_audit entry db = record db { audit_rows = db.audit_rows ++ audit_row entry db ∷ [] }
