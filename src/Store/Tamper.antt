-- ===== src/Store/Tamper.antt =====
-- Tamper evidence of the chain of store.py, where SHA-256 has no collisions on the texts hashed.
use causal_continuity_engine.Prelude.{
  ℕ, zero, suc, ◌≤◌, List, [], ◌∷◌, length, take, length-take_le, ◌≡◌, ◌≢◌, ◌∙◌, sym, refl, ap₂,
  arith,
}
use causal_continuity_engine.Store.Rows.{Hashing, Entry, Row, intact}
use causal_continuity_engine.Store.Rows
use causal_continuity_engine.Store.Rows.Links.{
  link, fold_links, Linked, verify_rows-Linked, entry_hash-link,
}
use causal_continuity_engine.Store.Anchor

-- What the chain relies on: distinct texts have distinct digests, no text has the digest GENESIS
-- (64 zeros), and the text of a link determines the predecessor and the entry.
pub record Collisionless (h : Hashing) (render : h.Digest → Entry h.Digest → h.Text) : Type 0 where
  pub sha256_injective : (s t : h.Text) → h.sha256_hex s ≡ h.sha256_hex t → s ≡ t
  pub genesis_fresh : (t : h.Text) → h.sha256_hex t ≢ h.genesis
  pub render_prev : (d e : h.Digest) (x y : Entry h.Digest) → render d x ≡ render e y → d ≡ e
  pub render_entry : (d e : h.Digest) (x y : Entry h.Digest) → render d x ≡ render e y → x ≡ y

abbrev pub entries : {D T : Type 0} → List (Row D T) → List (Entry D)
entries [] = []
entries (row ∷ rows) = row.entry ∷ entries rows

module _ (h : Hashing) (render : h.Digest → Entry h.Digest → h.Text)
    (c : Collisionless h render) where
  open h use {Digest, digest_eq, Text, sha256_hex, genesis}

  fold_links-injective :
      (d e : Digest) (xs ys : List (Row Digest Text))
      → length xs ≡ length ys
      → fold_links h render d xs ≡ fold_links h render e ys
      → (d ≡ e) × (entries xs ≡ entries ys)
  unfolding Rows.link
  fold_links-injective d e [] [] n t = (t, refl)
  fold_links-injective d e [] (y ∷ ys) n t = absurd (omega arith)
  fold_links-injective d e (x ∷ xs) [] n t = absurd (omega arith)
  fold_links-injective d e (x ∷ xs) (y ∷ ys) n t =
      let (heads, rest) =
        fold_links-injective (link h render d x.entry) (link h render e y.entry) xs ys (omega arith)
          t in
      let texts = c.sha256_injective _ _ heads in
      (
        c.render_prev d e x.entry y.entry texts,
        ap₂ ◌∷◌ (c.render_entry d e x.entry y.entry texts) rest,
      )

  pub fold_links-genesis :
      (d : Digest) (x : Row Digest Text) (xs : List (Row Digest Text))
      → fold_links h render d (x ∷ xs) ≢ genesis
  unfolding Rows.link
  fold_links-genesis d x [] = c.genesis_fresh _
  fold_links-genesis d x (y ∷ ys) = fold_links-genesis (link h render d x.entry) y ys

  -- Where SHA-256 has no collisions, GENESIS is no digest, and the text of a link determines the
  -- predecessor's hash and the entry, two chains that verify with the same number of entries and
  -- the same tip hold the same entries, in the same order.
  pub tip_determines_entries :
      (xs ys : List (Row Digest Text)) (n k l : ℕ) (t : Digest)
      → Rows.verify_chain h render xs ≡ intact n t k
      → Rows.verify_chain h render ys ≡ intact n t l
      → entries xs ≡ entries ys
  unfolding Rows.verify_chain
  tip_determines_entries xs ys n k l t v w =
      let (_, counted, tip) = verify_rows-Linked h render genesis 0 0 xs n k t v in
      let (_, counted', tip') = verify_rows-Linked h render genesis 0 0 ys n l t w in
      (fold_links-injective genesis genesis xs ys (omega arith) (sym tip ∙ tip')).1

  -- the anchored hash is that of the chain's prefix
  pub prefix_tip-Linked :
      (d : Digest) (n : ℕ) (rows : List (Row Digest Text))
      → Linked h render d rows
      → suc n ≤ length rows
      → Anchor.prefix_tip h render (suc n) rows ≡ fold_links h render d (take (suc n) rows)
  unfolding Anchor.prefix_tip
  prefix_tip-Linked d n [] l b = absurd (omega arith)
  prefix_tip-Linked d zero (row ∷ rows) l b = entry_hash-link h render d row l.0
  prefix_tip-Linked d (suc n) (row ∷ rows) l b =
      prefix_tip-Linked (link h render d row.entry) n rows l.1 (omega arith)

  pub prefix_entries :
      (rows whole : List (Row Digest Text)) (n : ℕ)
      → length rows ≡ n
      → n ≤ length whole
      → fold_links h render genesis rows ≡ fold_links h render genesis (take n whole)
      → entries (take n whole) ≡ entries rows
  prefix_entries rows whole n e b t =
      sym
        (fold_links-injective genesis genesis rows (take n whole)
          (omega (arith, length-take_le n whole b)) t).1
