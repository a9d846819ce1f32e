-- ===== src/Store/Published.antt =====
-- What a published anchor of store.py proves of the live log.
use causal_continuity_engine.Prelude.{
  ℕ, suc, ◌+◌, ◌≤◌, String, Bool, true, false, not, ltb, List, [], ◌∷◌, ◌++◌, none, some, length,
  take, take-append_length, length-append, ok, ◌≡◌, ◌∙◌, sym, refl, ap, ap₂, subst, arith, ==_refl,
  ◌==◌, string_eq, nat_eq,
}
use causal_continuity_engine.Store.Rows.{Hashing, Entry, Row, Table, ChainReport, intact, broken}
use causal_continuity_engine.Store.Rows
use causal_continuity_engine.Store.Rows.Links.{
  fold_links, Linked, verify_rows-Linked, tip_from-Linked,
}
use causal_continuity_engine.Store.Log.{Db, table_rows}
use causal_continuity_engine.Store.Anchor
use causal_continuity_engine.Store.Anchor.{
  Anchor, Binding, AnchorReport, holds, binding_problem, well_named, is_bound,
}
use causal_continuity_engine.Store.Tamper.{
  Collisionless, entries, prefix_tip-Linked, prefix_entries, fold_links-genesis,
}

abbrev IsIntact : {D : Type 0} → ChainReport D → Type 0
IsIntact {D} r = (n : ℕ) × (t : D) × (k : ℕ) × (r ≡ intact n t k)

module _ (h : Hashing) (render : h.Digest → Entry h.Digest → h.Text) where
  open h use {Digest, digest_eq, Text, sha256_hex, genesis}

  abbrev accepted? : ChainReport Digest → Bool
  accepted? (intact n t k) = true
  accepted? (broken r n) = false

  IsIntact-of : (r : ChainReport Digest) → accepted? r ≡ true → IsIntact r
  IsIntact-of (intact n t k) e = (n, t, k, refl)
  IsIntact-of (broken r n) e = cc

  -- What an exported anchor says of the rows that it was exported from.
  record Exported (table : Table) (binding : Binding) (now : String) (rows : List (Row Digest Text))
      (a : Anchor Digest) : Type 0 where
    linked : Linked h render genesis rows
    count : a.count ≡ length rows
    tip : a.tip ≡ fold_links h render genesis rows
    same_table : a.table ≡ table
    document :
        (a.schema_version ≡ "cce.anchor.v1")
        × (a.exported_at ≡ now)
        × (a.intact_at_export ≡ true)
        × (a.binding ≡ binding)
        × (well_named binding ≡ true)

  export_anchor-Exported :
      (table : Table) (binding : Binding) (now : String) (db : Db Digest Text) (a : Anchor Digest)
      → Anchor.export_anchor h render table binding now db ≡ ok a
      → Exported table binding now (table_rows table db) a
  unfolding Anchor.export_anchor
  export_anchor-Exported table binding now db a e =
      let rows = table_rows table db in
      let (n, t, k, accepted) = IsIntact-of (Rows.verify_chain h render rows) (ground arith) in
      let (linked, _, _) =
        verify_rows-Linked h render genesis 0 0 rows n k t (unfold Rows.verify_chain in accepted) in
      let tip = tip_from-Linked h render genesis rows linked in
      let made : a.tip ≡ Rows.chain_tip h render rows = ground arith in
      record {
        linked = linked;
        count = ground arith;
        tip = made ∙ (unfold Rows.chain_tip in tip);
        same_table = ground arith;
        document = (ground arith, ground arith, ground arith, ground arith, ground arith);
      }

  -- What an accepted check read from the live rows.
  record Compared (a : Anchor Digest) (rows : List (Row Digest Text)) : Type 0 where
    live_linked : Linked h render genesis rows
    enough : a.count ≤ length rows
    prefix : Anchor.prefix_tip h render a.count rows ≡ a.tip

  compare_rows-Compared :
      (a : Anchor Digest) (rows : List (Row Digest Text)) (b : Bool) (n l s : ℕ)
      → Anchor.compare_rows h render a rows ≡ holds b n l s
      → Compared a rows
  unfolding Anchor.compare_rows
  compare_rows-Compared a rows b n l s e =
      let (n, t, k, accepted) = IsIntact-of (Rows.verify_chain h render rows) (ground arith) in
      let (linked, _, _) =
        verify_rows-Linked h render genesis 0 0 rows n k t (unfold Rows.verify_chain in accepted) in
      record {
        live_linked = linked;
        enough = ground arith;
        prefix = (digest_eq.beq_iff _ _).0 (ground arith);
      }

  anchored_prefix :
      Collisionless h render
      → (rows live : List (Row Digest Text)) (a : Anchor Digest) → a.count ≡ length rows
      → a.tip ≡ fold_links h render genesis rows
      → Compared a live
      → entries (take (length rows) live) ≡ entries rows
  anchored_prefix c [] live a n t m = refl
  anchored_prefix c (row ∷ rows) live a n t m =
      let b : suc (length rows) ≤ length live = omega (arith, m.enough) in
      let old : Anchor.prefix_tip h render (suc (length rows)) live ≡ a.tip =
        subst (λ k. Anchor.prefix_tip h render k live ≡ a.tip) n m.prefix in
      prefix_entries h render c (row ∷ rows) live (suc (length rows)) refl b
        (sym t ∙ sym old ∙ prefix_tip-Linked h render c genesis (length rows) live m.live_linked b)

  -- Where SHA-256 has no collisions, GENESIS is no digest, and the text of a link determines the
  -- predecessor's hash and the entry, a log that an exported anchor still holds for begins, in order
  -- of `seq`, with exactly the entries that were there at the export, in the same order: none was
  -- rewritten, removed or inserted.
  pub anchor_fixes_history :
      Collisionless h render
      → (is_timestamp : String → Bool) (table : Table) (binding expected : Binding) (now : String)
        (before after : Db Digest Text) (a : Anchor Digest) (b : Bool) (n l s : ℕ)
      → Anchor.export_anchor h render table binding now before ≡ ok a
      → Anchor.verify_against_anchor h render is_timestamp expected a after ≡ holds b n l s
      → entries (take (length (table_rows table before)) (table_rows table after))
        ≡ entries (table_rows table before)
  unfolding Anchor.verify_against_anchor
  anchor_fixes_history c is_timestamp table binding expected now before after a b n l s e v =
      let x = export_anchor-Exported table binding now before a e in
      let m = compare_rows-Compared a (table_rows a.table after) b n l s (ground arith) in
      let y = subst (λ (t : Table). Compared a (table_rows t after)) x.same_table m in
      anchored_prefix c (table_rows table before) (table_rows table after) a x.count x.tip y

  binding_agrees : (b : Binding) → well_named b ≡ true → binding_problem b b ≡ false
  unfolding binding_problem
  binding_agrees none w = refl
  binding_agrees (some (t, p)) w = ground (arith, ==_refl t, ==_refl p)

  -- the number of entries and the tip of a linked chain agree as an anchor's must
  tip_consistent :
      Collisionless h render
      → (rows : List (Row Digest Text))
      → ((length rows == 0) ≡ digest_eq.beq (fold_links h render genesis rows) genesis)
        × (ltb 0 (length rows) ≡ not (digest_eq.beq (fold_links h render genesis rows) genesis))
  tip_consistent c [] = ground (arith, digest_eq.beq_iff genesis genesis)
  tip_consistent c (row ∷ rows) =
      let tip = fold_links h render genesis (row ∷ rows) in
      let fresh = fold_links-genesis h render c genesis row rows in
      ground (arith, digest_eq.beq_iff tip genesis, fresh)

  document_fine :
      Collisionless h render
      → (is_timestamp : String → Bool) (table : Table) (binding : Binding) (now : String)
        (rows : List (Row Digest Text)) (a : Anchor Digest)
      → is_timestamp now ≡ true
      → Exported table binding now rows a
      → Anchor.document_problem h render is_timestamp binding a ≡ false
  unfolding Anchor.document_problem
  document_fine c is_timestamp table binding now rows a clock x =
      let (schema, at, at_export, bound, named) = x.document in
      let schema_ok : (a.schema_version == "cce.anchor.v1") ≡ true = rw schema in
      let clock_ok : is_timestamp a.exported_at ≡ true = rw at clock in
      let bound_ok : binding_problem binding a.binding ≡ false =
        rw bound (binding_agrees binding named) in
      let empty_ok : (a.count == 0) ≡ digest_eq.beq a.tip genesis =
        rw (x.count, x.tip) (tip_consistent c rows).0 in
      let some_ok : ltb 0 a.count ≡ not (digest_eq.beq a.tip genesis) =
        rw (x.count, x.tip) (tip_consistent c rows).1 in
      ground (arith, schema_ok, clock_ok, bound_ok, empty_ok, some_ok)

  prefix_tip-extended :
      Collisionless h render
      → (rows more : List (Row Digest Text)) → Linked h render genesis (rows ++ more)
      → Anchor.prefix_tip h render (length rows) (rows ++ more) ≡ fold_links h render genesis rows
  unfolding Anchor.prefix_tip
  prefix_tip-extended c [] more l = refl
  prefix_tip-extended c (row ∷ rows) more l =
      prefix_tip-Linked h render c genesis (length rows) (row ∷ rows ++ more) l
        (omega (arith, length-append rows more))
      ∙ ap (fold_links h render genesis) (take-append_length (row ∷ rows) more)

  compare_rows-extended :
      (a : Anchor Digest) (rows : List (Row Digest Text)) (m n k : ℕ) (t : Digest)
      → Rows.verify_chain h render rows ≡ intact n t k
      → length rows ≡ a.count + m
      → Anchor.prefix_tip h render a.count rows ≡ a.tip
      → Anchor.compare_rows h render a rows ≡ holds (is_bound a.binding) a.count (length rows) m
  unfolding Anchor.compare_rows
  compare_rows-extended a rows m n k t v e p =
      ground (arith, v, (digest_eq.beq_iff (Anchor.prefix_tip h render a.count rows) a.tip).1 p)

  -- Where SHA-256 has no collisions, GENESIS is no digest, and the text of a link determines the
  -- predecessor's hash and the entry, an anchor that was exported at a well-formed time holds for
  -- every log whose rows, in order of `seq`, extend the exported ones to an intact chain, with the
  -- number of entries appended since.
  pub anchor_survives_appends :
      Collisionless h render
      → (is_timestamp : String → Bool) (table : Table) (binding : Binding) (now : String)
        (before after : Db Digest Text) (more : List (Row Digest Text)) (a : Anchor Digest)
        (n k : ℕ) (t : Digest)
      → is_timestamp now ≡ true
      → Anchor.export_anchor h render table binding now before ≡ ok a
      → table_rows table after ≡ table_rows table before ++ more
      → Rows.verify_chain h render (table_rows table after) ≡ intact n t k
      → Anchor.verify_against_anchor h render is_timestamp binding a after
        ≡ holds
            (is_bound binding)
            (length (table_rows table before))
            (length (table_rows table after))
            (length more)
  unfolding Anchor.verify_against_anchor
  anchor_survives_appends c is_timestamp table binding now before after more a n k t clock e ext v =
      let rows = table_rows table before in
      let live = table_rows table after in
      let x = export_anchor-Exported table binding now before a e in
      let fine = document_fine c is_timestamp table binding now rows a clock x in
      let (linked, _, _) =
        verify_rows-Linked h render genesis 0 0 live n k t (unfold Rows.verify_chain in v) in
      let prefix : Anchor.prefix_tip h render a.count live ≡ a.tip =
        rw (ext, x.count, x.tip)
          (prefix_tip-extended c rows more (subst (Linked h render genesis) ext linked)) in
      let sizes : length live ≡ a.count + length more =
        omega (arith, ap length ext, length-append rows more, x.count) in
      let (_, _, _, bound, _) = x.document in
      let compared = compare_rows-extended a live (length more) n k t v sizes prefix in
      rw fine (
        ap (λ (s : Table). Anchor.compare_rows h render a (table_rows s after)) x.same_table
        ∙ compared
        ∙ ap₂ (λ (b : Binding) (m : ℕ). holds (is_bound b) m (length live) (length more)) bound
            x.count)
