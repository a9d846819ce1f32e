-- ===== src/Store/Rows/Links.antt =====
-- What `verify_chain` of store.py accepts: rows in which every hash is that of the link before it.
use causal_continuity_engine.Prelude.{
  ℕ, suc, ◌+◌, List, [], ◌∷◌, ◌++◌, none, length, ◌≡◌, ◌∙◌, refl, ap, arith,
}
use causal_continuity_engine.Store.Rows.{
  Hashing, Entry, EventEntry, AuditEntry, event, audit, Row, Reason, ChainReport, broken, intact,
}
use causal_continuity_engine.Store.Rows

module _ (h : Hashing) (render : h.Digest → Entry h.Digest → h.Text) where
  open h use {Digest, digest_eq, Text, sha256_hex, genesis}

  abbrev pub link : Digest → Entry Digest → Digest
  link = Rows.link h render

  -- the chain of hashes over the entries of rows
  abbrev pub fold_links : Digest → List (Row Digest Text) → Digest
  fold_links d [] = d
  fold_links d (row ∷ rows) = fold_links (link d row.entry) rows

  -- no row fails a test
  abbrev pub Linked : Digest → List (Row Digest Text) → Type 0
  Linked d [] = Unit
  Linked d (row ∷ rows) = (Rows.row_problem h render d row ≡ none) × Linked (link d row.entry) rows

  pub lost : List (Row Digest Text) → ℕ
  lost [] = 0
  lost (row ∷ rows) = Rows.unavailable h render row + lost rows

  -- an accepted chain is linked, and the report counts its rows and ends in its last hash
  pub verify_rows-Linked :
      (d : Digest) (seen l : ℕ) (rows : List (Row Digest Text)) (n k : ℕ) (t : Digest)
      → Rows.verify_rows h render d seen l rows ≡ intact n t k
      → Linked d rows × (n ≡ seen + length rows) × (t ≡ fold_links d rows)
  unfolding Rows.verify_rows
  verify_rows-Linked d seen l [] n k t e = ground arith
  verify_rows-Linked d seen l (row ∷ rows) n k t e = ground (
    arith,
    verify_rows-Linked (link d row.entry) (suc seen) (l + Rows.unavailable h render row) rows n k t,
  )

  pub Linked-verify_rows :
      (d : Digest) (seen l : ℕ) (rows : List (Row Digest Text))
      → Linked d rows
      → Rows.verify_rows h render d seen l rows
        ≡ intact (seen + length rows) (fold_links d rows) (l + lost rows)
  unfolding Rows.verify_rows lost
  Linked-verify_rows d seen l [] e = ground arith
  Linked-verify_rows d seen l (row ∷ rows) e = ground (
    arith,
    Linked-verify_rows (link d row.entry) (suc seen) (l + Rows.unavailable h render row) rows,
  )

  -- an accepted row carries the hashes that the chain gives it
  pub prev_hash-link :
      (d : Digest) (row : Row Digest Text)
      → Rows.row_problem h render d row ≡ none
      → row.prev_hash ≡ d
  unfolding Rows.row_problem Rows.hash_problem
  prev_hash-link d row e = (digest_eq.beq_iff row.prev_hash d).0 (ground arith)

  pub entry_hash-link :
      (d : Digest) (row : Row Digest Text)
      → Rows.row_problem h render d row ≡ none
      → row.entry_hash ≡ link d row.entry
  unfolding Rows.row_problem Rows.hash_problem
  entry_hash-link d row e = (digest_eq.beq_iff row.entry_hash (link d row.entry)).0 (ground arith)

  pub fold_links-append :
      (d : Digest) (xs ys : List (Row Digest Text))
      → fold_links d (xs ++ ys) ≡ fold_links (fold_links d xs) ys
  fold_links-append d [] ys = refl
  fold_links-append d (x ∷ xs) ys = fold_links-append (link d x.entry) xs ys

  pub Linked-append :
      (d : Digest) (xs ys : List (Row Digest Text))
      → Linked d xs
      → Linked (fold_links d xs) ys
      → Linked d (xs ++ ys)
  Linked-append d [] ys e f = f
  Linked-append d (x ∷ xs) ys e f = (e.0, Linked-append (link d x.entry) xs ys e.1 f)

  pub Linked-prefix :
      (d : Digest) (xs ys : List (Row Digest Text)) → Linked d (xs ++ ys) → Linked d xs
  Linked-prefix d [] ys e = tt
  Linked-prefix d (x ∷ xs) ys e = (e.0, Linked-prefix (link d x.entry) xs ys e.1)

  -- the last row's hash is the last hash of the chain
  pub tip_from-Linked :
      (d : Digest) (rows : List (Row Digest Text))
      → Linked d rows
      → Rows.tip_from h render d rows ≡ fold_links d rows
  unfolding Rows.tip_from
  tip_from-Linked d [] e = refl
  tip_from-Linked d (row ∷ rows) e =
      ap (λ x. Rows.tip_from h render x rows) (entry_hash-link d row e.0)
      ∙ tip_from-Linked (link d row.entry) rows e.1
