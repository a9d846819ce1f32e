-- ===== src/Lamport/Runs.antt =====
-- A signed object of lamport.py on a toy hash, which complements the first byte of a text.
use causal_continuity_engine.Prelude.{
  ℕ, zero, suc, String, true, false, not, List, [], ◌∷◌, ◌++◌, length, ok, ◌≡◌, refl, inl, inr, ap,
}
use causal_continuity_engine.Lamport.{
  Primitives, Key, Envelope, signed, plain, Signature, public_of, fingerprint, flat, is_key,
  is_fingerprint, body, attach, sign_object, verify_envelope_with, authentic,
}
use causal_continuity_engine.Lamport.Hex.{
  Nibble, nibble, Byte, byte, Bytes, to_hex, from_hex, hex_digit, find_digit, after_label,
}
use causal_continuity_engine.Lamport.RoundTrip.{verify_envelope_with-sign_object}

abbrev copies {ℓ} : {A : Type ℓ} → ℕ → A → List A
copies zero x = []
copies (suc n) x = x ∷ copies n x

length-copies {ℓ} : {A : Type ℓ} (n : ℕ) (x : A) → length (copies n x) ≡ n
length-copies zero x = refl
length-copies (suc n) x = ap suc (length-copies n x)

abbrev flip : Nibble → Nibble
flip (nibble a b c d) = nibble (not a) (not b) (not c) (not d)

abbrev complement : Bytes → Byte
complement [] = byte (nibble true true true true) (nibble true true true true)
complement (byte high low ∷ rest) = byte (flip high) (flip low)

-- the plain values of an object
abbrev values : Envelope Bytes → Bytes
values [] = []
values ((key, plain b) ∷ rest) = b ++ values rest
values ((key, signed s) ∷ rest) = values rest

abbrev toy : Primitives
toy = record {
  sha256 = λ b. copies 32 (complement b);
  Json = Bytes;
  canonical_json = λ obj. ok (values obj);
}

abbrev low_byte : Byte
low_byte = byte (nibble false false false false) (nibble false true false true)

abbrev high_byte : Byte
high_byte = byte (nibble true false true false) (nibble true true false false)

abbrev private_key : Key
private_key = copies 256 (copies 32 low_byte, copies 32 high_byte)

-- an object that carries another value at the key of the signature
abbrev proof : Envelope Bytes
proof = ("claim", plain (low_byte ∷ [])) ∷ ("signature", plain (high_byte ∷ [])) ∷ []

abbrev trusted : String
trusted = "sha256:fafafafafafafafafafafafafafafafafafafafafafafafafafafafafafafafa"

abbrev own : String
own = "sha256:0505050505050505050505050505050505050505050505050505050505050505"

private_key-is_key : is_key private_key ≡ true
unfolding is_key
private_key-is_key = refl

own_fingerprint : fingerprint toy (public_of toy private_key) ≡ ok own
unfolding fingerprint public_of flat is_key to_hex hex_digit
own_fingerprint = refl

verify_envelope_with-sign_object_example :
    (sig : Signature) × (sign_object toy "release" private_key proof ≡ ok sig)
    × (verify_envelope_with toy (trusted ∷ own ∷ []) (attach toy sig proof) ≡ ok authentic)
unfolding body is_fingerprint after_label from_hex find_digit hex_digit
verify_envelope_with-sign_object_example =
    verify_envelope_with-sign_object toy (λ b. length-copies 32 (complement b)) private_key
      private_key-is_key "release" proof (low_byte ∷ []) (trusted ∷ own ∷ []) own refl refl
      own_fingerprint refl (inr (inl refl))
