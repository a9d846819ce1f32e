-- ===== src/Prelude/Text.antt =====
-- Texts as the source's `str`: blank texts, order by code point, and sorted sets of names.
use Prim.Native.Nat.{ℕ}
use Prim.Native.Char.{code}
use Prim.Native.String.{String, compare}
use Prim.Native.Nat.{Ordering}
use mathlib.Core.Bool.{Bool, true, false, ◌&&◌, ◌||◌}
use mathlib.Core.List.{List, [], ◌∷◌}
use mathlib.Core.Path.{◌≡◌, refl, ◌∙◌, ap}
use native.Mathlib.Omega.{arith}
use text.Mathlib.TextEquality.{eq_iff}
use causal_continuity_engine.Prelude.Tests.{leb, ◌==◌, nat_eq, string_eq, if◌then◌else◌}
use causal_continuity_engine.Prelude.Lists.{is_empty, contains}

-- The code points that `str.strip` removes and `str.isspace` accepts.
unfoldable pub is_space : ℕ → Bool
is_space c =
    (leb 9 c && leb c 13)
    || (leb 28 c && leb c 32)
    || c == 133
    || c == 160
    || c == 5760
    || (leb 8192 c && leb c 8202)
    || c == 8232
    || c == 8233
    || c == 8239
    || c == 8287
    || c == 12288

-- `not s.strip()`
unfoldable pub is_blank : String → Bool
unfolding is_space
is_blank String.[] = true
is_blank (String.◌∷◌ c s) = is_space (code c) && is_blank s

-- `a < b` on `str`
abbrev pub str_lt : String → String → Bool
str_lt a b = elim (compare a b) [ Ordering.lt ↦ true | _ ↦ false ]

-- One pass of insertion into a sorted list of texts; a text that is there is not added again.
insert_name : String → List String → List String
insert_name s [] = s ∷ []
insert_name s (t ∷ ts) =
    if str_lt s t then s ∷ t ∷ ts else if s == t then t ∷ ts else t ∷ insert_name s ts

-- `sorted(set(names))`
unfoldable pub sorted_set : List String → List String
unfolding insert_name
sorted_set [] = []
sorted_set (s ∷ ts) = insert_name s (sorted_set ts)

is_empty-insert_name : (s : String) (ts : List String) → is_empty (insert_name s ts) ≡ false
unfolding insert_name
is_empty-insert_name s [] = refl
is_empty-insert_name s (t ∷ ts) = ground arith

pub is_empty-sorted_set : (ts : List String) → is_empty (sorted_set ts) ≡ is_empty ts
unfolding sorted_set
is_empty-sorted_set [] = refl
is_empty-sorted_set (s ∷ ts) = is_empty-insert_name s (sorted_set ts)

contains-insert_name :
    (s a : String) (ts : List String) → contains (insert_name s ts) a ≡ (a == s || contains ts a)
unfolding insert_name
contains-insert_name s a [] = refl
contains-insert_name s a (t ∷ ts) =
    ground (arith, contains-insert_name s a ts, eq_iff a s, eq_iff a t, eq_iff s t)

pub contains-sorted_set :
    (ts : List String) (a : String) → contains (sorted_set ts) a ≡ contains ts a
unfolding sorted_set
contains-sorted_set [] a = refl
contains-sorted_set (s ∷ ts) a =
    contains-insert_name s a (sorted_set ts) ∙ ap (λ b. a == s || b) (contains-sorted_set ts a)
