-- ===== src/Lamport.antt =====
-- causal_continuity_engine/lamport.py: one-time signatures that a stranger can check.
--
-- SHA-256 on bytes, JSON values and core.py's `canonical_json` of an object are a parameter. The
-- public key and the value of a signature are hex texts, as they are in an envelope. A value at the
-- key "signature" that is not a dict of the five fields, of their types, is a `plain` one.
mod Runs
pub mod Hex
pub mod Blocks
pub mod RoundTrip
use causal_continuity_engine.Core.{labelled}
use causal_continuity_engine.Prelude.{
  ℕ, String, Bool, true, false, not, ◌&&◌, ◌==◌, nat_eq, string_eq, if◌then◌else◌, List, [], ◌∷◌,
  ◌++◌, all, filter, map, length, is_empty, contains, lookup, insert, Option, none, some, Result,
  ok, err, ◌>>=◌, ◌>>◌, raise_if, value_error, unregistered_key_error,
}
use causal_continuity_engine.Lamport.Hex.{
  Bytes, bytes_beq, message_bits, to_hex, from_hex, after_label,
}

-- the dict that `LamportSigner.sign` returns
pub record Signature : Type 0 where
  pub key_id : String
  pub algorithm : String
  pub fingerprint : String
  pub public_key : List (String × String)
  pub value : List String

-- the value of a key of an envelope: a signature, or other JSON
pub data Field (Json : Type 0) : Type 0 where
  signed : Signature → Field Json
  plain : Json → Field Json

-- a dict in insertion order
abbrev pub Envelope : Type 0 → Type 0
Envelope Json = List (String × Field Json)

pub record Primitives : Type 1 where
  pub sha256 : Bytes → Bytes
  pub Json : Type 0
  pub canonical_json : Envelope Json → Result Bytes

-- `_BITS` and `_BLOCK`
abbrev pub bits : ℕ
bits = 256

abbrev pub block_size : ℕ
block_size = 32

abbrev pub Key : Type 0
Key = List (Bytes × Bytes)

-- `private[i][bit]`
abbrev pub half {ℓ} : {A : Type ℓ} → A × A → Bool → A
half (x, y) true = y
half (x, y) false = x

abbrev pub is_block : Bytes → Bool
is_block b = length b == block_size

abbrev pub is_pair : Bytes × Bytes → Bool
is_pair x = is_block x.0 && is_block x.1

-- 256 pairs of 32-byte blocks
unfoldable pub is_key : Key → Bool
is_key key = length key == bits && all is_pair key

unfoldable pub are_blocks : List Bytes → Bool
are_blocks blocks = length blocks == bits && all is_block blocks

-- one block for each bit
unfoldable pub reveal : Key → List Bool → List Bytes
reveal (k ∷ ks) (b ∷ rest) = half k b ∷ reveal ks rest
reveal _ _ = []

-- `b"".join(a + b for a, b in public)`
unfoldable pub flat : Key → Bytes
flat [] = []
flat ((a, b) ∷ rest) = a ++ b ++ flat rest

-- `_HEX_BLOCK` and `bytes.fromhex`
unfoldable pub decode_block : String → Result Bytes
decode_block text = elim (from_hex text) [
  | none ↦ err value_error
  | some b ↦ if is_block b then ok b else err value_error
]

unfoldable pub decode_each : List String → Result (List Bytes)
decode_each [] = ok []
decode_each (text ∷ rest) = do b ← decode_block text; later ← decode_each rest; ok (b ∷ later)

unfoldable pub decode_each_pair : List (String × String) → Result Key
decode_each_pair [] = ok []
decode_each_pair ((a, b) ∷ rest) = do
  x ← decode_block a
  y ← decode_block b
  later ← decode_each_pair rest
  ok ((x, y) ∷ later)

-- `_decode_blocks`
unfoldable pub decode_blocks : List String → Result (List Bytes)
decode_blocks values = do raise_if (not (length values == bits)) value_error; decode_each values

-- `_decode_pairs`
unfoldable pub decode_pairs : List (String × String) → Result Key
decode_pairs pairs = do raise_if (not (length pairs == bits)) value_error; decode_each_pair pairs

-- `_encode`
unfoldable pub encode : List Bytes → List String
encode blocks = map to_hex blocks

unfoldable pub encode_pairs : Key → List (String × String)
encode_pairs key = map (λ (x : Bytes × Bytes). (to_hex x.0, to_hex x.1)) key

-- `_FINGERPRINT`
unfoldable pub is_fingerprint : String → Bool
is_fingerprint text = elim (after_label "sha256:" text) [
  | none ↦ false
  | some rest ↦ elim (from_hex rest) [ none ↦ false | some b ↦ is_block b ]
]

-- `_signature_shape`, on a signature with its five fields
unfoldable pub signature_shape : Signature → Bool
signature_shape sig =
    not (sig.key_id == "") && sig.algorithm == "lamport-sha256/1" && is_fingerprint sig.fingerprint

-- the answers of `verify_envelope_with`
pub data Answer : Type 0 where
  malformed_shape malformed_signature wrong_fingerprint malformed_body not_covered : Answer
  not_registered authentic : Answer

module _ (p : Primitives) where
  open p use {sha256, Json, canonical_json}

  -- the public half of `generate_keypair`
  unfoldable pub public_of : Key → Key
  public_of private = map (λ (x : Bytes × Bytes). (sha256 x.0, sha256 x.1)) private

  -- `fingerprint`
  unfoldable pub fingerprint : Key → Result String
  fingerprint public =
      if is_key public
      then ok (labelled "sha256:" (to_hex (sha256 (flat public))))
      else err value_error

  -- `sign`
  unfoldable pub sign : Key → Bytes → Result (List Bytes)
  sign private message = do
    raise_if (not (is_key private)) value_error
    ok (reveal private (message_bits (sha256 message)))

  -- the comparisons of `verify`
  unfoldable pub matches : Key → List Bool → List Bytes → Bool
  matches (k ∷ ks) (b ∷ rest) (s ∷ signature) =
      let later = matches ks rest signature in bytes_beq (sha256 s) (half k b) && later
  matches _ _ _ = true

  -- `verify`
  unfoldable pub verify : Key → Bytes → List Bytes → Bool
  verify public message signature =
      are_blocks signature
      && is_key public
      && matches public (message_bits (sha256 message)) signature

  -- `{k: v for k, v in obj.items() if k != "signature"}`
  unfoldable pub body : Envelope Json → Envelope Json
  body obj = filter (λ (e : String × Field Json). not (e.0 == "signature")) obj

  -- `LamportSigner.sign`, with the private key that `generate_keypair` gave
  unfoldable pub sign_object : String → Key → Envelope Json → Result Signature
  sign_object key_id private obj = do
    message ← canonical_json (body obj)
    issued ← fingerprint (public_of private)
    value ← sign private message
    ok (record {
      key_id = key_id;
      algorithm = "lamport-sha256/1";
      fingerprint = issued;
      public_key = encode_pairs (public_of private);
      value = encode value;
    })

  -- `obj["signature"] = signature`
  unfoldable pub attach : Signature → Envelope Json → Envelope Json
  attach sig obj = insert "signature" (signed sig) obj

  -- the tests of `verify_envelope_with` from the decoded key and blocks on
  unfoldable pub judge : List String → Signature → Key → List Bytes → Envelope Json → Result Answer
  judge expected sig public blocks obj = do
    actual ← fingerprint public
    ok (
        if not (sig.fingerprint == actual)
        then wrong_fingerprint
        else elim (canonical_json (body obj)) [
          | err e ↦ malformed_body
          | ok message ↦
              if not (verify public message blocks)
              then not_covered
              else if not (contains expected actual)
              then not_registered
              else authentic
        ])

  unfoldable pub check_signature : List String → Signature → Envelope Json → Result Answer
  check_signature expected sig obj =
      if not (signature_shape sig) then ok malformed_shape else elim (decode_pairs sig.public_key) [
        | err e ↦ ok malformed_signature
        | ok public ↦ elim (decode_blocks sig.value) [
          | err e ↦ ok malformed_signature
          | ok blocks ↦ judge expected sig public blocks obj
        ]
      ]

  -- `verify_envelope_with`, on a dict
  unfoldable pub verify_envelope_with : List String → Envelope Json → Result Answer
  verify_envelope_with expected obj = do
    raise_if (not (all is_fingerprint expected)) value_error
    raise_if (is_empty expected) unregistered_key_error
    elim (lookup "signature" obj) [
      | none ↦ ok malformed_shape
      | some (plain value) ↦ ok malformed_shape
      | some (signed sig) ↦ check_signature expected sig obj
    ]

  -- `LamportSigner.verify`: integrity alone
  unfoldable pub verify_object : Envelope Json → Bool
  verify_object obj = elim (lookup "signature" obj) [
    | none ↦ false
    | some (plain value) ↦ false
    | some (signed sig) ↦ signature_shape sig && elim (decode_pairs sig.public_key) [
      | err e ↦ false
      | ok public ↦ elim (decode_blocks sig.value) [
        | err e ↦ false
        | ok blocks ↦ elim (canonical_json (body obj)) [
          | err e ↦ false
          | ok message ↦ verify public message blocks
        ]
      ]
    ]
  ]
