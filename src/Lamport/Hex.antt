-- ===== src/Lamport/Hex.antt =====
-- Bytes and their hex texts in lamport.py: `bytes.hex`, `bytes.fromhex` and the patterns of a hex
-- block and of a fingerprint.
use Prim.Native.Char.{Char, code}
use Prim.Native.String.append
use causal_continuity_engine.Core.{labelled}
use causal_continuity_engine.Prelude.{
  ℕ, ◌*◌, String, Bool, true, false, ◌&&◌, ◌==◌, nat_eq, if◌then◌else◌, List, [], ◌∷◌, Option, none,
  some, length, ◌≡◌, refl, ap, ◌∙◌, eqb_iff, arith,
}

-- half a byte, its highest bit first
pub data Nibble : Type 0 where
  nibble : Bool → Bool → Bool → Bool → Nibble

pub data Byte : Type 0 where
  byte : Nibble → Nibble → Byte

abbrev pub Bytes : Type 0
Bytes = List Byte

abbrev bool_beq : Bool → Bool → Bool
bool_beq true b = b
bool_beq false true = false
bool_beq false false = true

unfoldable pub byte_beq : Byte → Byte → Bool
byte_beq (byte (nibble a b c d) (nibble e f g h)) (byte (nibble i j k l) (nibble m n o p)) =
    (bool_beq a i && bool_beq b j && bool_beq c k && bool_beq d l)
    && (bool_beq e m && bool_beq f n && bool_beq g o && bool_beq h p)

-- `hmac.compare_digest`
unfoldable pub bytes_beq : Bytes → Bytes → Bool
bytes_beq [] [] = true
bytes_beq (x ∷ xs) (y ∷ ys) = byte_beq x y && bytes_beq xs ys
bytes_beq _ _ = false

-- `_message_bits`
unfoldable pub message_bits : Bytes → List Bool
message_bits [] = []
message_bits (byte (nibble a b c d) (nibble e f g h) ∷ rest) =
    a ∷ b ∷ c ∷ d ∷ e ∷ f ∷ g ∷ h ∷ message_bits rest

unfoldable pub hex_digit : Nibble → Char
hex_digit (nibble false false false false) = "0"
hex_digit (nibble false false false true) = "1"
hex_digit (nibble false false true false) = "2"
hex_digit (nibble false false true true) = "3"
hex_digit (nibble false true false false) = "4"
hex_digit (nibble false true false true) = "5"
hex_digit (nibble false true true false) = "6"
hex_digit (nibble false true true true) = "7"
hex_digit (nibble true false false false) = "8"
hex_digit (nibble true false false true) = "9"
hex_digit (nibble true false true false) = "a"
hex_digit (nibble true false true true) = "b"
hex_digit (nibble true true false false) = "c"
hex_digit (nibble true true false true) = "d"
hex_digit (nibble true true true false) = "e"
hex_digit (nibble true true true true) = "f"

-- `bytes.hex`
unfoldable pub to_hex : Bytes → String
to_hex [] = ""
to_hex (byte high low ∷ rest) =
    String.◌∷◌ (hex_digit high) (String.◌∷◌ (hex_digit low) (to_hex rest))

abbrev bit : Bool → ℕ
bit b = if b then 1 else 0

-- the place of a digit among `0123456789abcdef`
abbrev digits : List Nibble
digits =
    nibble false false false false
    ∷ nibble false false false true
    ∷ nibble false false true false
    ∷ nibble false false true true
    ∷ nibble false true false false
    ∷ nibble false true false true
    ∷ nibble false true true false
    ∷ nibble false true true true
    ∷ nibble true false false false
    ∷ nibble true false false true
    ∷ nibble true false true false
    ∷ nibble true false true true
    ∷ nibble true true false false
    ∷ nibble true true false true
    ∷ nibble true true true false
    ∷ nibble true true true true
    ∷ []

unfoldable pub find_digit : Char → List Nibble → Option Nibble
find_digit c [] = none
find_digit c (n ∷ rest) =
    let later = find_digit c rest in if code c == code (hex_digit n) then some n else later

-- a digit `[0-9a-f]`
abbrev pub from_digit : Char → Option Nibble
from_digit c = find_digit c digits

abbrev joined : Option Nibble → Option Nibble → Option Bytes → Option Bytes
joined (some high) (some low) (some rest) = some (byte high low ∷ rest)
joined _ _ _ = none

-- `bytes.fromhex` of a text of lower-case digits, and none for another text
unfoldable pub from_hex : String → Option Bytes
from_hex String.[] = some []
from_hex (String.◌∷◌ c String.[]) = none
from_hex (String.◌∷◌ c (String.◌∷◌ d s)) = joined (from_digit c) (from_digit d) (from_hex s)

-- what follows the prefix `label`
unfoldable pub after_label : String → String → Option String
after_label String.[] s = some s
after_label (String.◌∷◌ c label) String.[] = none
after_label (String.◌∷◌ c label) (String.◌∷◌ d s) =
    let rest = after_label label s in if code c == code d then rest else none

from_digit-hex_digit : (n : Nibble) → from_digit (hex_digit n) ≡ some n
unfolding find_digit hex_digit
from_digit-hex_digit (nibble false false false false) = refl
from_digit-hex_digit (nibble false false false true) = refl
from_digit-hex_digit (nibble false false true false) = refl
from_digit-hex_digit (nibble false false true true) = refl
from_digit-hex_digit (nibble false true false false) = refl
from_digit-hex_digit (nibble false true false true) = refl
from_digit-hex_digit (nibble false true true false) = refl
from_digit-hex_digit (nibble false true true true) = refl
from_digit-hex_digit (nibble true false false false) = refl
from_digit-hex_digit (nibble true false false true) = refl
from_digit-hex_digit (nibble true false true false) = refl
from_digit-hex_digit (nibble true false true true) = refl
from_digit-hex_digit (nibble true true false false) = refl
from_digit-hex_digit (nibble true true false true) = refl
from_digit-hex_digit (nibble true true true false) = refl
from_digit-hex_digit (nibble true true true true) = refl

pub from_hex-to_hex : (b : Bytes) → from_hex (to_hex b) ≡ some b
unfolding to_hex from_hex
from_hex-to_hex [] = refl
from_hex-to_hex (byte high low ∷ rest) =
    rw (from_digit-hex_digit high, from_digit-hex_digit low, from_hex-to_hex rest) refl

pub after_label-labelled : (label s : String) → after_label label (labelled label s) ≡ some s
unfolding after_label
after_label-labelled String.[] s = ap (after_label "") (append.nil s)
after_label-labelled (String.◌∷◌ c label) s =
    ap (after_label (String.◌∷◌ c label)) (append.cons c label s)
    ∙ (ground (arith, (eqb_iff (code c) (code c)).1 refl, after_label-labelled label s))

byte_beq_refl : (x : Byte) → byte_beq x x ≡ true
unfolding byte_beq
byte_beq_refl (byte (nibble a b c d) (nibble e f g h)) = ground arith

pub bytes_beq_refl : (x : Bytes) → bytes_beq x x ≡ true
unfolding bytes_beq
bytes_beq_refl [] = refl
bytes_beq_refl (x ∷ xs) = rw (byte_beq_refl x, bytes_beq_refl xs) refl

pub length-message_bits : (b : Bytes) → length (message_bits b) ≡ 8 * length b
unfolding message_bits
length-message_bits [] = refl
length-message_bits (byte (nibble a b c d) (nibble e f g h) ∷ rest) =
    omega (arith, length-message_bits rest)
