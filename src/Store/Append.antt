-- ===== src/Store/Append.antt =====
-- Appends to the logs of store.py keep the chain intact, and a redelivery appends nothing.
use causal_continuity_engine.Store.Rows.Numbered.{IsNumbered, in_order-last}
use causal_continuity_engine.Prelude.{
  ℕ, ◌+◌, String, true, false, string_eq, ==_refl, ltb, List, [], ◌∷◌, ◌++◌, none, some, length,
  length-append, ok, err, duplicate_event_error, payload_mismatch_error, ◌≡◌, ◌≢◌, ◌∙◌, sym, refl,
  ap, arith, suc, Bool, ◌⊎◌, inl, inr,
}
use causal_continuity_engine.Store.Rows.{
  Hashing, Entry, EventEntry, AuditEntry, event, audit, Row, Table, audit_log, intact, ChainReport,
}
use causal_continuity_engine.Store.Rows
use causal_continuity_engine.Store.Rows.Links.{
  fold_links, lost, verify_rows-Linked, Linked-verify_rows, fold_links-append, Linked-append,
  tip_from-Linked,
}
use causal_continuity_engine.Store.Log
use causal_continuity_engine.Store.Log.{Db, Delivery, digest, table_rows}

intact_eq :
    {D : Type 0} {n m k l : ℕ} {s t : D}
    → n ≡ m
    → s ≡ t
    → k ≡ l
    → ◌≡◌ {A = ChainReport D} (intact n s k) (intact m t l)
intact_eq e f g = cc

module _ (h : Hashing) (render : h.Digest → Entry h.Digest → h.Text) where
  open h use {Digest, digest_eq, Text, empty_text, sha256_hex, genesis}

  same_refl : (d : Digest) → digest_eq.beq d d ≡ true
  same_refl d = (digest_eq.beq_iff d d).1 refl

  -- one more row that continues the chain
  intact_snoc :
      (rows : List (Row Digest Text)) (row : Row Digest Text) (n k : ℕ) (t : Digest)
      → Rows.verify_chain h render rows ≡ intact n t k
      → Rows.row_problem h render t row ≡ none
      → Rows.verify_chain h render (rows ++ row ∷ [])
        ≡ intact (n + 1) (Rows.link h render t row.entry) (lost h render (rows ++ row ∷ []))
  unfolding Rows.verify_chain
  intact_snoc rows row n k t e fits =
      let (linked, counted, tip) = verify_rows-Linked h render genesis 0 0 rows n k t e in
      let ends : Rows.row_problem h render (fold_links h render genesis rows) row ≡ none =
        rw (← tip) fits in
      let whole = Linked-append h render genesis rows (row ∷ []) linked (ends, tt) in
      Linked-verify_rows h render genesis 0 0 (rows ++ row ∷ []) whole
      ∙ intact_eq (omega (arith, length-append rows (row ∷ [])))
          (fold_links-append h render genesis rows (row ∷ [])
            ∙ ap (λ d. Rows.link h render d row.entry) (sym tip))
          (omega arith)

  chain_tip-intact :
      (rows : List (Row Digest Text)) (n k : ℕ) (t : Digest)
      → Rows.verify_chain h render rows ≡ intact n t k
      → Rows.chain_tip h render rows ≡ t
  unfolding Rows.verify_chain Rows.chain_tip
  chain_tip-intact rows n k t e =
      let (linked, counted, tip) = verify_rows-Linked h render genesis 0 0 rows n k t e in
      tip_from-Linked h render genesis rows linked ∙ sym tip

  audit_row_fits :
      (entry : AuditEntry) (db : Db Digest Text)
      → Rows.row_problem h render
          (Rows.chain_tip h render (table_rows audit_log db))
          (Log.audit_row h render entry db)
        ≡ none
  unfolding Rows.row_problem Rows.payload_problem Rows.hash_problem Log.audit_row
  audit_row_fits entry db = rw (
    same_refl (Rows.chain_tip h render (table_rows audit_log db)),
    same_refl
        (Rows.link h render (Rows.chain_tip h render (table_rows audit_log db)) (audit entry)),
  )

  appended :
      (d : Delivery Digest Text) (event_id now : String) (db db' : Db Digest Text)
      (row : Row Digest Text)
      → Log.append_event h render d event_id now db ≡ (db', ok row)
      → (row ≡ Log.insert_event h render d event_id now db)
        × (db'.event_rows ≡ db.event_rows ++ row ∷ [])
        × (db'.event_seq ≡ suc db.event_seq)
        × (Log.find_key h render d db.event_rows ≡ none)
        × (db'.transaction_depth ≡ db.transaction_depth)
        × (ltb 0 db.transaction_depth ≡ false)
  unfolding Log.append_event Log.append_locked
  appended d event_id now db db' row e = ground arith

  -- Every audit record extends an intact audit chain, whose rows are numbered up to their count, by
  -- one row, and the chain stays intact.
  pub write_audit-intact :
      (entry : AuditEntry) (db : Db Digest Text) (n k : ℕ) (t : Digest)
      → IsNumbered (length db.audit_rows) db.audit_rows
      → Rows.verify_chain h render (table_rows audit_log db) ≡ intact n t k
      → Rows.verify_chain h render (table_rows audit_log (Log.write_audit h render entry db))
        ≡ intact
            (n + 1)
            (Rows.link h render t (audit entry))
            (lost h render (table_rows audit_log db ++ Log.audit_row h render entry db ∷ []))
  unfolding Log.write_audit Log.audit_row
  write_audit-intact entry db n k t numbered e =
      let row = Log.audit_row h render entry db in
      let tip = chain_tip-intact (table_rows audit_log db) n k t e in
      rw (in_order-last (length db.audit_rows) db.audit_rows row numbered (omega arith))
        (intact_snoc (table_rows audit_log db) row n k t e (rw (← tip) (audit_row_fits entry db)))

  -- two deliveries of one source, one project and one idempotency key
  abbrev pub SameKey : Delivery Digest Text → Delivery Digest Text → Type 0
  SameKey d e =
      (d.tenant_id ≡ e.tenant_id)
      × (d.project_id ≡ e.project_id)
      × (d.idempotency_key ≡ e.idempotency_key)

  find_key-append :
      (d e : Delivery Digest Text) (event_id now : String) (db : Db Digest Text)
      (rows : List (Row Digest Text))
      → SameKey d e
      → Log.find_key h render d rows ≡ none
      → Log.find_key h render e (rows ++ Log.insert_event h render d event_id now db ∷ [])
        ≡ some (digest h render d)
  unfolding Log.find_key Log.insert_event Log.event_entry
  find_key-append d e event_id now db [] s f =
      ground (arith, ==_refl d.tenant_id, ==_refl d.project_id, ==_refl d.idempotency_key)
  find_key-append d e event_id now db (row ∷ rows) s f =
      ground (arith, find_key-append d e event_id now db rows s)

  module _ (e : Delivery Digest Text) (db : Db Digest Text) (recorded : Digest)
      (found : Log.find_key h render e db.event_rows ≡ some recorded)
      (free : ltb 0 db.transaction_depth ≡ false) where
    known_duplicate :
        (event_id now : String)
        → digest h render e ≡ recorded
        → Log.append_event h render e event_id now db ≡ (db, err duplicate_event_error)
    unfolding Log.append_event Log.append_locked
    known_duplicate event_id now same = simp (free, found, same, same_refl recorded)

    known_mismatch :
        (event_id now : String)
        → digest h render e ≢ recorded
        → let (after, answer) = Log.append_event h render e event_id now db in
          (answer ≡ err payload_mismatch_error)
          × (after.event_rows ≡ db.event_rows)
          × (after.event_seq ≡ db.event_seq)
          × (after.audit_rows ≡ db.audit_rows)
          × (length after.mismatches ≡ length db.mismatches + 1)
    unfolding Log.append_event Log.append_locked
    known_mismatch event_id now differs =
        let unequal : digest_eq.beq recorded (digest h render e) ≡ false =
          ground (arith, digest_eq.beq_iff recorded (digest h render e)) in
        ground (
          arith,
          unequal,
          found,
          free,
          length-append db.mismatches (Log.flag h render e recorded now ∷ []),
        )

  -- What happens to the logs between two deliveries: deliveries, accepted or refused, standalone
  -- or in a transaction that was opened and closed meanwhile, and audit records.
  pub data Continued (start : Db Digest Text) : Db Digest Text → Type 0 where
    here : Continued start start
    delivered :
        {db : Db Digest Text}
        → Continued start db
        → (joined : Bool) (d : Delivery Digest Text) (event_id now : String)
        → Continued start (Log.append_locked h render joined d event_id now db).0
    audited :
        {db : Db Digest Text}
        → Continued start db
        → (entry : AuditEntry) → Continued start (Log.write_audit h render entry db)

  find_key-kept :
      (e : Delivery Digest Text) (rows more : List (Row Digest Text)) (recorded : Digest)
      → Log.find_key h render e rows ≡ some recorded
      → Log.find_key h render e (rows ++ more) ≡ some recorded
  unfolding Log.find_key
  find_key-kept e [] more recorded f = absurd (ground arith)
  find_key-kept e (row ∷ rows) more recorded f = ground (arith, find_key-kept e rows more recorded)

  -- no delivery changes or removes a row
  delivered_rows :
      (joined : Bool) (d : Delivery Digest Text) (event_id now : String) (db : Db Digest Text)
      → let after = (Log.append_locked h render joined d event_id now db).0 in
        ((after.event_rows ≡ db.event_rows)
          ⊎ (after.event_rows ≡ db.event_rows ++ Log.insert_event h render d event_id now db ∷ []))
        × (after.transaction_depth ≡ db.transaction_depth)
  unfolding Log.append_locked
  delivered_rows joined d event_id now db = ground arith

  still_found :
      (e : Delivery Digest Text) (recorded : Digest) (start : Db Digest Text)
      → Log.find_key h render e start.event_rows ≡ some recorded
      → {db : Db Digest Text} → Continued start db
      → (Log.find_key h render e db.event_rows ≡ some recorded)
        × (db.transaction_depth ≡ start.transaction_depth)
  unfolding Log.write_audit
  still_found e recorded start f here = (f, refl)
  still_found e recorded start f (delivered {db} p joined d event_id now) =
      let (found, depth) = still_found e recorded start f p in
      let (rows, same) = delivered_rows joined d event_id now db in
      elim rows [
        | inl kept ↦ (rw kept found, same ∙ depth)
        | inr grown ↦ (
          rw grown (
              find_key-kept e db.event_rows (Log.insert_event h render d event_id now db ∷ [])
                recorded found),
          same ∙ depth,
        )
      ]
  still_found e recorded start f (audited {db} p entry) = still_found e recorded start f p

  -- Once `append_event` has accepted a delivery, and whatever deliveries and audit records follow, a
  -- delivery of the same tenant, project and idempotency key appends nothing: with the same digest
  -- it is reported as a duplicate and changes nothing, with another digest it is refused and leaves
  -- one mismatch flag more.
  pub redelivery :
      (d e : Delivery Digest Text) (event_id event_id' now now' : String)
      (db accepted db' : Db Digest Text) (row : Row Digest Text)
      → Log.append_event h render d event_id now db ≡ (accepted, ok row)
      → Continued accepted db'
      → SameKey d e
      → (digest h render e ≡ digest h render d
          → Log.append_event h render e event_id' now' db' ≡ (db', err duplicate_event_error))
        × (digest h render e ≢ digest h render d
            → let (after, answer) = Log.append_event h render e event_id' now' db' in
              (answer ≡ err payload_mismatch_error)
              × (after.event_rows ≡ db'.event_rows)
              × (after.event_seq ≡ db'.event_seq)
              × (after.audit_rows ≡ db'.audit_rows)
              × (length after.mismatches ≡ length db'.mismatches + 1))
  redelivery d e event_id event_id' now now' db accepted db' row a later s =
      let (inserted, rows, _, absent, depth, free) = appended d event_id now db accepted row a in
      let first : Log.find_key h render e accepted.event_rows ≡ some (digest h render d) =
        rw (rows, inserted) (find_key-append d e event_id now db db.event_rows s absent) in
      let (found, level) = still_found e (digest h render d) accepted first later in
      let free' : ltb 0 db'.transaction_depth ≡ false = rw (level, depth) free in
      (
        known_duplicate e db' (digest h render d) found free' event_id' now',
        known_mismatch e db' (digest h render d) found free' event_id' now',
      )
