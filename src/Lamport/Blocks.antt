-- ===== src/Lamport/Blocks.antt =====
-- The blocks of a key of lamport.py: their sizes, and that their hex texts decode to them.
use causal_continuity_engine.Prelude.{
  suc, Bool, true, false, ◌==◌, nat_eq, List, [], ◌∷◌, all, length, ok, ◌≡◌, refl, ap, arith,
}
use causal_continuity_engine.Lamport.{
  Primitives, Key, bits, block_size, is_block, is_pair, is_key, are_blocks, reveal, decode_block,
  decode_each, decode_each_pair, decode_blocks, decode_pairs, encode, encode_pairs, is_fingerprint,
  public_of, flat,
}
use causal_continuity_engine.Core.{labelled}
use causal_continuity_engine.Lamport.Hex.{Bytes, to_hex, from_hex-to_hex, after_label-labelled}

decode_block-to_hex : (b : Bytes) → is_block b ≡ true → decode_block (to_hex b) ≡ ok b
unfolding decode_block
decode_block-to_hex b h = ground (arith, from_hex-to_hex b)

decode_each-encode :
    (blocks : List Bytes) → all is_block blocks ≡ true → decode_each (encode blocks) ≡ ok blocks
unfolding decode_each encode
decode_each-encode [] h = refl
decode_each-encode (b ∷ rest) h =
    rw (decode_block-to_hex b (ground arith), decode_each-encode rest (ground arith)) refl

decode_each_pair-encode_pairs :
    (key : Key) → all is_pair key ≡ true → decode_each_pair (encode_pairs key) ≡ ok key
unfolding decode_each_pair encode_pairs
decode_each_pair-encode_pairs [] h = refl
decode_each_pair-encode_pairs ((a, b) ∷ rest) h =
    rw
      (
        decode_block-to_hex a (ground arith),
        decode_block-to_hex b (ground arith),
        decode_each_pair-encode_pairs rest (ground arith),
      )
      refl

length-encode : (blocks : List Bytes) → length (encode blocks) ≡ length blocks
unfolding encode
length-encode [] = refl
length-encode (b ∷ rest) = ap suc (length-encode rest)

length-encode_pairs : (key : Key) → length (encode_pairs key) ≡ length key
unfolding encode_pairs
length-encode_pairs [] = refl
length-encode_pairs (k ∷ rest) = ap suc (length-encode_pairs rest)

-- the hex texts of well-formed blocks decode to them
pub decode_blocks-encode :
    (blocks : List Bytes) → are_blocks blocks ≡ true → decode_blocks (encode blocks) ≡ ok blocks
unfolding decode_blocks are_blocks
decode_blocks-encode blocks h =
    let counted : (length blocks == bits) ≡ true = ground arith in
    rw (length-encode blocks, counted) (decode_each-encode blocks (ground arith))

pub decode_pairs-encode_pairs :
    (key : Key) → is_key key ≡ true → decode_pairs (encode_pairs key) ≡ ok key
unfolding decode_pairs is_key
decode_pairs-encode_pairs key h =
    let counted : (length key == bits) ≡ true = ground arith in
    rw (length-encode_pairs key, counted) (decode_each_pair-encode_pairs key (ground arith))

all_halves :
    (key : Key) (bs : List Bool) → all is_pair key ≡ true → all is_block (reveal key bs) ≡ true
unfolding reveal
all_halves [] bs h = refl
all_halves (k ∷ ks) [] h = refl
all_halves (k ∷ ks) (true ∷ bs) h = ground (arith, all_halves ks bs)
all_halves (k ∷ ks) (false ∷ bs) h = ground (arith, all_halves ks bs)

length-reveal :
    (private : Key) (bs : List Bool)
    → length bs ≡ length private
    → length (reveal private bs) ≡ length private
unfolding reveal
length-reveal [] bs h = refl
length-reveal (k ∷ ks) [] h = absurd (omega arith)
length-reveal (k ∷ ks) (b ∷ bs) h = ap suc (length-reveal ks bs (omega arith))

-- a revealed half of each pair of a key is a well-formed list of blocks
pub reveal-are_blocks :
    (private : Key) (bs : List Bool)
    → is_key private ≡ true
    → length bs ≡ bits
    → are_blocks (reveal private bs) ≡ true
unfolding are_blocks is_key
reveal-are_blocks private bs h n = ground (arith, all_halves private bs, length-reveal private bs)

module _ (p : Primitives) (sized : (b : Bytes) → length (p.sha256 b) ≡ block_size) where
  all_hashed : (private : Key) → all is_pair (public_of p private) ≡ true
  unfolding public_of
  all_hashed [] = refl
  all_hashed (k ∷ ks) = rw (sized k.0, sized k.1, all_hashed ks) refl

  length-public_of : (private : Key) → length (public_of p private) ≡ length private
  unfolding public_of
  length-public_of [] = refl
  length-public_of (k ∷ ks) = ap suc (length-public_of ks)

  -- the public half of a key is a key
  pub public_of-is_key :
      (private : Key) → is_key private ≡ true → is_key (public_of p private) ≡ true
  unfolding is_key
  public_of-is_key private h = ground (arith, length-public_of private, all_hashed private)

  -- the fingerprint of a key has the form that is asked for
  pub fingerprint-is_fingerprint :
      (public : Key) → is_fingerprint (labelled "sha256:" (to_hex (p.sha256 (flat public)))) ≡ true
  unfolding is_fingerprint
  fingerprint-is_fingerprint public =
      let digest = p.sha256 (flat public) in
      ground (
        arith,
        after_label-labelled "sha256:" (to_hex digest),
        from_hex-to_hex digest,
        sized (flat public),
      )
