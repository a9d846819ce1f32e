-- ===== src/Lamport/RoundTrip.antt =====
-- What a Lamport signature of lamport.py shows to a stranger.
use text.Mathlib.TextEquality.{eq_iff}
use causal_continuity_engine.Prelude.{
  String, Bool, true, false, ◌==◌, nat_eq, string_eq, List, [], ◌∷◌, length, all, is_empty,
  contains_complete, lookup, lookup-insert, In, some, ok, ◌≡◌, refl, sym, arith, ==_refl,
  if◌then◌else◌, subst,
}
use causal_continuity_engine.Core.{labelled}
use causal_continuity_engine.Lamport.{
  Primitives, Key, Envelope, Field, signed, Signature, bits, block_size, is_key, flat, reveal,
  public_of, matches, verify, sign, fingerprint, encode, encode_pairs, sign_object, attach, body,
  is_fingerprint, signature_shape, judge, check_signature, verify_envelope_with, authentic,
}
use causal_continuity_engine.Lamport.Hex.{
  Bytes, to_hex, bytes_beq_refl, message_bits, length-message_bits,
}
use causal_continuity_engine.Lamport.Blocks.{
  decode_blocks-encode, decode_pairs-encode_pairs, reveal-are_blocks, public_of-is_key,
  fingerprint-is_fingerprint,
}

nonempty : {A : Type 0} (x : A) (xs : List A) → In x xs → is_empty xs ≡ false
nonempty x [] h = elim h [ ]
nonempty x (y ∷ xs) h = refl

module _ (p : Primitives) where
  open p use {sha256, Json, canonical_json}

  matches-reveal :
      (private : Key) (bs : List Bool)
      → matches p (public_of p private) bs (reveal private bs) ≡ true
  unfolding public_of reveal matches
  matches-reveal [] bs = refl
  matches-reveal (k ∷ ks) [] = refl
  matches-reveal (k ∷ ks) (true ∷ bs) =
      ground (arith, bytes_beq_refl (sha256 k.1), matches-reveal ks bs)
  matches-reveal (k ∷ ks) (false ∷ bs) =
      ground (arith, bytes_beq_refl (sha256 k.0), matches-reveal ks bs)

  -- a signature that is put into an object is not part of what it signs
  body-if :
      (sig : Signature) (e : String × Field Json) (rest done : Envelope Json) (b : Bool)
      → (e.0 == "signature") ≡ b
      → body p done ≡ body p rest
      → body p (if b then (e.0, signed sig) ∷ rest else e ∷ done) ≡ body p (e ∷ rest)
  unfolding body
  body-if sig e rest done true h k = rw h refl
  body-if sig e rest done false h k = rw (h, k) refl

  ==_sym : (x y : String) → (x == y) ≡ (y == x)
  ==_sym x y = ground (arith, eq_iff x y, eq_iff y x)

  body-attach : (sig : Signature) (obj : Envelope Json) → body p (attach p sig obj) ≡ body p obj
  unfolding body attach
  body-attach sig [] = refl
  body-attach sig ((key, value) ∷ rest) =
      body-if sig (key, value) rest (attach p sig rest) ("signature" == key)
        (==_sym key "signature") (body-attach sig rest)

  lookup-attach :
      (sig : Signature) (obj : Envelope Json)
      → lookup "signature" (attach p sig obj) ≡ some (signed sig)
  unfolding attach
  lookup-attach sig obj = lookup-insert "signature" "signature" (signed sig) obj

  -- what `LamportSigner.sign` returns
  abbrev issued : Key → String
  issued private = labelled "sha256:" (to_hex (sha256 (flat (public_of p private))))

  abbrev made : String → Key → Bytes → Signature
  made key_id private message = record {
    key_id = key_id;
    algorithm = "lamport-sha256/1";
    fingerprint = issued private;
    public_key = encode_pairs (public_of p private);
    value = encode (reveal private (message_bits (sha256 message)));
  }

  module _ (sized : (b : Bytes) → length (sha256 b) ≡ block_size) (private : Key)
      (keyed : is_key private ≡ true) where
    counted : (message : Bytes) → length (message_bits (sha256 message)) ≡ bits
    counted message = omega (arith, length-message_bits (sha256 message), sized message)

    fingerprint-public_of : fingerprint p (public_of p private) ≡ ok (issued private)
    unfolding fingerprint
    fingerprint-public_of = rw (public_of-is_key p sized private keyed) refl

    verify-reveal :
        (message : Bytes)
        → verify p (public_of p private) message (reveal private (message_bits (sha256 message)))
          ≡ true
    unfolding verify
    verify-reveal message =
        rw
          (
            reveal-are_blocks private (message_bits (sha256 message)) keyed (counted message),
            public_of-is_key p sized private keyed,
          )
          (matches-reveal private (message_bits (sha256 message)))

    sign_object-made :
        (key_id : String) (obj : Envelope Json) (message : Bytes)
        → canonical_json (body p obj) ≡ ok message
        → sign_object p key_id private obj ≡ ok (made key_id private message)
    unfolding sign_object sign
    sign_object-made key_id obj message h = rw (h, fingerprint-public_of, keyed) refl

    judge-made :
        (key_id : String) (obj : Envelope Json) (message : Bytes) (expected : List String)
        → canonical_json (body p obj) ≡ ok message
        → In (issued private) expected
        → judge p expected
            (made key_id private message)
            (public_of p private)
            (reveal private (message_bits (sha256 message)))
            (attach p (made key_id private message) obj)
          ≡ ok authentic
    unfolding judge
    judge-made key_id obj message expected h trusted =
        let stripped = body-attach (made key_id private message) obj in
        let known = contains_complete expected (issued private) trusted in
        rw fingerprint-public_of
          (ground (arith, ==_refl (issued private), stripped, h, verify-reveal message, known))

    -- Where a SHA-256 digest has 32 bytes, and the signer has a key of 256 pairs of 32-byte blocks and
    -- a non-empty key identifier, an object whose body is canonical JSON is signed, and the object
    -- with that signature, in the place of any that it had, is found authentic by everyone who
    -- expects the fingerprint of the signer's public key among well-formed fingerprints.
    pub verify_envelope_with-sign_object :
        (key_id : String) (obj : Envelope Json) (message : Bytes) (expected : List String)
        (trusted : String)
        → (key_id == "") ≡ false
        → canonical_json (body p obj) ≡ ok message
        → fingerprint p (public_of p private) ≡ ok trusted
        → all is_fingerprint expected ≡ true
        → In trusted expected
        → (sig : Signature) × (sign_object p key_id private obj ≡ ok sig)
          × (verify_envelope_with p expected (attach p sig obj) ≡ ok authentic)
    unfolding verify_envelope_with check_signature signature_shape
    verify_envelope_with-sign_object key_id obj message expected trusted named h own formed listed =
        let same : issued private ≡ trusted = cc (fingerprint-public_of, own) in
        let member : In (issued private) expected =
          subst (λ (f : String). In f expected) (sym same) listed in
        let sig = made key_id private message in
        let blocks = reveal private (message_bits (sha256 message)) in
        let public = public_of p private in
        let whole = public_of-is_key p sized private keyed in
        let revealed =
          reveal-are_blocks private (message_bits (sha256 message)) keyed (counted message) in
        (
          sig,
          sign_object-made key_id obj message h,
          ground (
            arith,
            nonempty (issued private) expected member,
            lookup-attach sig obj,
            fingerprint-is_fingerprint p sized public,
            decode_pairs-encode_pairs public whole,
            decode_blocks-encode blocks revealed,
            judge-made key_id obj message expected h member,
          ),
        )
