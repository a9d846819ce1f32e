-- ===== src/Store/Rows.antt =====
-- The rows of the `events` and `audit_log` tables of store.py, and `verify_chain`.
pub mod Links
pub mod Numbered
use causal_continuity_engine.Prelude.{
  ℕ, zero, suc, ◌+◌, String, Bool, true, false, not, ◌==◌, Eq, if◌then◌else◌, List, [], ◌∷◌, Option,
  none, some, leb,
}

-- What the chain takes from hashlib and from core.py: `sha256_hex`, the texts that it reads, and
-- the text `f"{prev_hash}\n{canonical_json(entry)}"` of a link.
pub record Hashing : Type 1 where
  pub Digest : Type 0
  pub digest_eq : Eq Digest
  pub Text : Type 0
  pub empty_text : Text
  pub sha256_hex : Text → Digest
  pub genesis : Digest

module _ (Digest : Type 0) where
  -- the columns of `_EVENT_CHAINED_COLUMNS`; `stored_payload_digest` is absent from the entries of
  -- rows that were written before the column existed
  pub record EventEntry : Type 0 where
    pub event_id : String
    pub tenant_id : String
    pub project_id : String
    pub source_type : String
    pub source_id : Option String
    pub idempotency_key : String
    pub observed_at : String
    pub recorded_at : String
    pub valid_from : Option String
    pub valid_to : Option String
    pub actor_type : Option String
    pub actor_id : Option String
    pub authority : String
    pub sensitivity : String
    pub capture_mode : String
    pub payload_digest : Digest
    pub stored_payload_digest : Option Digest
    pub schema_version : String
    pub seq : ℕ

-- the columns of an audit entry that the chain covers
pub record AuditEntry : Type 0 where
  pub at : String
  pub actor : String
  pub action : String
  pub object_id : Option String
  pub before_ref : Option String
  pub after_ref : Option String
  pub authority : Option String
  pub detail : Option String

pub data Entry (Digest : Type 0) : Type 0 where
  event : EventEntry Digest → Entry Digest
  audit : AuditEntry → Entry Digest

pub data Table : Type 0 where
  events audit_log : Table

pub record Row (Digest Text : Type 0) : Type 0 where
  pub entry : Entry Digest
  pub seq : ℕ
  pub payload : Option Text
  pub prev_hash : Digest
  pub entry_hash : Digest

pub data Reason : Type 0 where
  no_commitment payload_differs link_differs content_differs : Reason

-- The dict that `verify_chain` returns.
pub data ChainReport (Digest : Type 0) : Type 0 where
  broken : Reason → (checked : ℕ) → ChainReport Digest
  intact : (entries : ℕ) → (tip : Digest) → (payloads_unavailable : ℕ) → ChainReport Digest

-- `ORDER BY seq`, for a table's rows in the order in which they were inserted
unfoldable pub place : {D T : Type 0} → Row D T → List (Row D T) → List (Row D T)
place r [] = r ∷ []
place r (x ∷ xs) = let later = place r xs in if leb r.seq x.seq then r ∷ x ∷ xs else x ∷ later

unfoldable pub in_order : {D T : Type 0} → List (Row D T) → List (Row D T)
in_order [] = []
in_order (r ∷ rs) = place r (in_order rs)

abbrev pub stored_digest : {D : Type 0} → Entry D → Option D
stored_digest (event e) = e.stored_payload_digest
stored_digest (audit e) = none

module _ (h : Hashing) (render : h.Digest → Entry h.Digest → h.Text) where
  open h use {Digest, digest_eq, Text, sha256_hex, genesis}

  -- `_link`
  unfoldable pub link : Digest → Entry Digest → Digest
  link prev entry = sha256_hex (render prev entry)

  abbrev same : Digest → Digest → Bool
  same a b = digest_eq.beq a b

  -- the test of a retained payload; an audit row has none
  unfoldable pub payload_problem : Row Digest Text → Option Reason
  payload_problem row = elim row.entry [
    | audit e ↦ none
    | event e ↦ elim row.payload [
      | none ↦ none
      | some text ↦ elim e.stored_payload_digest [
        | none ↦ some no_commitment
        | some d ↦ if same (sha256_hex text) d then none else some payload_differs
      ]
    ]
  ]

  -- the tests of the two hashes of a row
  unfoldable pub hash_problem : Digest → Row Digest Text → Option Reason
  hash_problem prev row =
      if not (same row.prev_hash prev)
      then some link_differs
      else if not (same row.entry_hash (link prev row.entry))
      then some content_differs
      else none

  -- the first test that a row fails
  unfoldable pub row_problem : Digest → Row Digest Text → Option Reason
  row_problem prev row = elim (payload_problem row) [
    | some r ↦ some r
    | none ↦ hash_problem prev row
  ]

  -- one when an event row has lost its payload
  unfoldable pub unavailable : Row Digest Text → ℕ
  unavailable row = elim row.entry [
    | audit e ↦ 0
    | event e ↦ elim row.payload [ none ↦ 1 | some text ↦ 0 ]
  ]

  -- the loop of `verify_chain`, with the rows that it has seen
  unfoldable pub verify_rows : Digest → ℕ → ℕ → List (Row Digest Text) → ChainReport Digest
  verify_rows prev seen lost [] = intact seen prev lost
  verify_rows prev seen lost (row ∷ rows) =
      let rest = verify_rows (link prev row.entry) (suc seen) (lost + unavailable row) rows in
      elim (row_problem prev row) [ some r ↦ broken r row.seq | none ↦ rest ]

  -- `verify_chain`, on the rows that `in_order` gives
  unfoldable pub verify_chain : List (Row Digest Text) → ChainReport Digest
  verify_chain rows = verify_rows genesis 0 0 rows

  -- `_chain_tip`, on the rows that `in_order` gives: the `entry_hash` of the row of the largest `seq`
  unfoldable pub tip_from : Digest → List (Row Digest Text) → Digest
  tip_from d [] = d
  tip_from d (row ∷ rows) = tip_from row.entry_hash rows

  unfoldable pub chain_tip : List (Row Digest Text) → Digest
  chain_tip rows = tip_from genesis rows
