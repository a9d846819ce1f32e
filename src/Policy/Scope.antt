-- ===== src/Policy/Scope.antt =====
-- `_normalise_scope` and `_scope_matches` of policy.py, on code points.
use mathlib.Core.List.{reverse}
use causal_continuity_engine.Prelude.{
  ℕ, Bool, true, false, ◌&&◌, ◌||◌, ◌==◌, nat_eq, if◌then◌else◌, List, [], ◌∷◌, map, Option, none,
  some, any, contains, is_empty,
}
use causal_continuity_engine.Prelude.Text.{is_space}

abbrev pub Scope : Type 0
Scope = List ℕ

-- `replace("\\", "/")`
abbrev slashed : ℕ → ℕ
slashed c = if c == 92 then b'/' else c

drop_spaces : Scope → Scope
drop_spaces [] = []
drop_spaces (c ∷ s) = let rest = drop_spaces s in if is_space c then rest else c ∷ s

-- `strip()`
strip : Scope → Scope
unfolding drop_spaces
strip s = reverse (drop_spaces (reverse (drop_spaces s)))

-- a character in front of the first part
onto_first : ℕ → List Scope → List Scope
onto_first c [] = (c ∷ []) ∷ []
onto_first c (p ∷ ps) = (c ∷ p) ∷ ps

-- `split("/")`
split : Scope → List Scope
unfolding onto_first
split [] = [] ∷ []
split (c ∷ s) = if c == b'/' then [] ∷ split s else onto_first c (split s)

abbrev is_dot_dot : Scope → Bool
is_dot_dot (a ∷ b ∷ []) = a == b'.' && b == b'.'
is_dot_dot _ = false

abbrev starts_with_slash : Scope → Bool
starts_with_slash [] = false
starts_with_slash (c ∷ s) = c == b'/'

-- `":" in parts[0]`
abbrev colon_first : List Scope → Bool
colon_first [] = false
colon_first (p ∷ ps) = contains p b':'

-- `_normalise_scope`, on a scope that is not null
unfoldable pub normalise_scope : Scope → Option Scope
unfolding strip split
normalise_scope value =
    let normalised = strip (map slashed value) in
    let parts = split normalised in
    if is_empty normalised
      || starts_with_slash normalised
      || any is_dot_dot parts
      || colon_first parts
    then none
    else some normalised

-- `_scope_matches`
unfoldable pub scope_matches : (Scope → Scope → Bool) → Option Scope → Option Scope → Bool
unfolding strip
scope_matches fnmatchcase none action = true
scope_matches fnmatchcase (some grant) none = false
scope_matches fnmatchcase (some grant) (some action) =
    if is_empty (strip action) then false else elim (normalise_scope grant) [
      | none ↦ false
      | some pattern ↦ elim (normalise_scope action) [
        | none ↦ false
        | some target ↦ fnmatchcase target pattern
      ]
    ]
