-- ===== src/Prelude/Names.antt =====
-- Lists of names as sets: what an empty list, `all` and a filter say of each name.
use text.Mathlib.TextEquality.{eq_iff}
use mathlib.Core.Bool.{Bool, true, false, ◌&&◌, ◌||◌}
use mathlib.Core.List.{List, [], ◌∷◌, ◌++◌}
use mathlib.Core.Path.{◌≡◌, refl}
use mathlib.Core.Logic.{◌↔◌}
use native.Mathlib.Omega.{arith}
use Prim.Native.String.{String}
use causal_continuity_engine.Prelude.Tests.{◌==◌, string_eq, ==_refl}
use causal_continuity_engine.Prelude.Lists.{is_empty, contains, all, filter}

-- a list of names is not empty if it holds a name
pub nonempty_iff : (l : List String) → (is_empty l ≡ false) ↔ ((n : String) × (contains l n ≡ true))
nonempty_iff [] = (λ h. absurd (ground arith), λ h. absurd (ground arith))
nonempty_iff (n ∷ l) = (λ h. (n, ground (arith, ==_refl n)), λ h. refl)

pub is_empty-contains :
    (l : List String) → (is_empty l ≡ true) ↔ ((n : String) → contains l n ≡ false)
is_empty-contains [] = (λ h n. refl, λ h. refl)
is_empty-contains (n ∷ l) = (λ h. cc, λ h. ground (arith, ==_refl n, h n))

pub is_empty-append : (xs ys : List String) → is_empty (xs ++ ys) ≡ (is_empty xs && is_empty ys)
is_empty-append [] ys = refl
is_empty-append (x ∷ xs) ys = refl

or_true : (b : Bool) → (b || true) ≡ true
or_true b = ground arith

pub all-filter :
    (p q : String → Bool) (l : List String)
    → all p l ≡ true
    → ((n : String) → p n ≡ true → q n ≡ false)
    → is_empty (filter q l) ≡ true
all-filter p q [] h f = refl
all-filter p q (n ∷ l) h f = ground (arith, f n, all-filter p q l)

pub all-contains :
    (p : String → Bool) (l : List String) (n : String)
    → all p l ≡ true
    → contains l n ≡ true
    → p n ≡ true
all-contains p [] n h m = cc
all-contains p (k ∷ l) n h m = ground (arith, eq_iff n k, all-contains p l n)

pub contains-all :
    (p : String → Bool) (l : List String)
    → ((n : String) → contains l n ≡ true → p n ≡ true)
    → all p l ≡ true
contains-all p [] f = refl
contains-all p (k ∷ l) f =
    ground (arith, ==_refl k, f k, contains-all p l (λ n m. f n (rw m (or_true (n == k)))))
