-- ===== src/Core.antt =====
-- causal_continuity_engine/core.py: public identifiers; and f-strings of a text and a value.
use Prim.Native.Char.{code}
use Prim.Native.String.{◌++◌}
use causal_continuity_engine.Prelude.{
  ℕ, zero, suc, String, Bool, true, false, ◌&&◌, ◌||◌, ◌==◌, nat_eq, leb,
}

-- `[A-Za-z0-9]`
abbrev is_alphanumeric : ℕ → Bool
is_alphanumeric c =
    (leb b'A' c && leb c b'Z') || (leb b'a' c && leb c b'z') || (leb b'0' c && leb c b'9')

-- `[A-Za-z0-9._~-]`
abbrev is_unreserved : ℕ → Bool
is_unreserved c = is_alphanumeric c || c == b'.' || c == b'_' || c == b'~' || c == b'-'

-- `[A-Za-z0-9._~-]{0,n}` up to the end of the text
unreserved_up_to : ℕ → String → Bool
unreserved_up_to n String.[] = true
unreserved_up_to zero (String.◌∷◌ c s) = false
unreserved_up_to (suc n) (String.◌∷◌ c s) = is_unreserved (code c) && unreserved_up_to n s

-- `is_public_identifier`, on a text: `PUBLIC_IDENTIFIER_PATTERN` from end to end
unfoldable pub is_public_identifier : String → Bool
unfolding unreserved_up_to
is_public_identifier String.[] = false
is_public_identifier (String.◌∷◌ c s) = is_alphanumeric (code c) && unreserved_up_to 127 s

-- `f"{label}{text}"`
abbrev pub labelled : String → String → String
labelled label text = label ++ text
