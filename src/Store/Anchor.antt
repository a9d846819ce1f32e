-- ===== src/Store/Anchor.antt =====
-- `export_anchor` and `verify_against_anchor` of store.py. `is_timestamp` stands for
-- `is_canonical_utc_timestamp` of core.py.
use causal_continuity_engine.Prelude.{
  ℕ, zero, suc, ◌-◌, String, Bool, true, false, not, ◌&&◌, ◌||◌, ◌==◌, string_eq, nat_eq, ltb,
  if◌then◌else◌, List, Option, none, some, length, get_elem?, Result, ok, err, value_error,
  anchor_export_error, ◌>>◌, raise_if,
}
use causal_continuity_engine.Core.{is_public_identifier}
use causal_continuity_engine.Store.Rows.{Hashing, Entry, Row, Table, ChainReport, broken, intact}
use causal_continuity_engine.Store.Rows
use causal_continuity_engine.Store.Log.{Db, table_rows}

-- the tenant and the project that an anchor or a check is bound to
abbrev pub Binding : Type 0
Binding = Option (String × String)

pub record Anchor (Digest : Type 0) : Type 0 where
  pub schema_version : String
  pub table : Table
  pub count : ℕ
  pub tip : Digest
  pub intact_at_export : Bool
  pub exported_at : String
  pub binding : Binding

-- The dict that `verify_against_anchor` returns.
pub data AnchorReport : Type 0 where
  invalid_document : AnchorReport
  chain_broken : AnchorReport
  tail_removed : (anchored live : ℕ) → AnchorReport
  history_rewritten : AnchorReport
  holds : (bound : Bool) → (anchored live appended_since : ℕ) → AnchorReport

abbrev pub is_bound : Binding → Bool
is_bound none = false
is_bound (some b) = true

-- both identifiers of a binding are public identifiers
abbrev pub well_named : Binding → Bool
well_named none = true
well_named (some (tenant, project)) = is_public_identifier tenant && is_public_identifier project

-- the tests of an anchor's binding against the expected one
unfoldable pub binding_problem : (expected actual : Binding) → Bool
binding_problem none none = false
binding_problem none (some (t, p)) = not (well_named (some (t, p)))
binding_problem (some e) none = true
binding_problem (some (et, ep)) (some (t, p)) =
    not (well_named (some (t, p))) || not (t == et) || not (p == ep)

module _ (h : Hashing) (render : h.Digest → Entry h.Digest → h.Text) where
  open h use {Digest, digest_eq, Text, sha256_hex, genesis}

  -- `export_anchor`
  unfoldable pub export_anchor : Table → Binding → String → Db Digest Text → Result (Anchor Digest)
  export_anchor table binding now db = do
    raise_if (not (well_named binding)) value_error
    let rows = table_rows table db
    elim (Rows.verify_chain h render rows) [
      | broken r n ↦ err anchor_export_error
      | intact n t k ↦ ok (record {
        schema_version = "cce.anchor.v1";
        table = table;
        count = length rows;
        tip = Rows.chain_tip h render rows;
        intact_at_export = true;
        exported_at = now;
        binding = binding;
      })
    ]

  -- the tests of the document itself
  unfoldable pub document_problem : (String → Bool) → Binding → Anchor Digest → Bool
  document_problem is_timestamp expected a =
      not (a.schema_version == "cce.anchor.v1")
      || ((a.count == 0 && not (digest_eq.beq a.tip genesis))
          || (ltb 0 a.count && digest_eq.beq a.tip genesis))
      || not (is_timestamp a.exported_at)
      || not a.intact_at_export
      || binding_problem expected a.binding

  -- `prefix_tip`: the hash of the last anchored row
  unfoldable pub prefix_tip : ℕ → List (Row Digest Text) → Digest
  prefix_tip zero rows = genesis
  prefix_tip (suc n) rows = elim (get_elem? rows n) [ none ↦ genesis | some row ↦ row.entry_hash ]

  -- the comparison of an accepted document with the live rows
  unfoldable pub compare_rows : Anchor Digest → List (Row Digest Text) → AnchorReport
  compare_rows a rows = elim (Rows.verify_chain h render rows) [
    | broken r n ↦ chain_broken
    | intact n t k ↦
        let live = length rows in
        if ltb live a.count
        then tail_removed a.count live
        else if not (digest_eq.beq (prefix_tip a.count rows) a.tip)
        then history_rewritten
        else holds (is_bound a.binding) a.count live (live - a.count)
  ]

  -- `verify_against_anchor`
  unfoldable pub verify_against_anchor :
      (String → Bool) → Binding → Anchor Digest → Db Digest Text → AnchorReport
  verify_against_anchor is_timestamp expected a db =
      if document_problem is_timestamp expected a
      then invalid_document
      else compare_rows a (table_rows a.table db)
