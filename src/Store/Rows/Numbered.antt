-- ===== src/Store/Rows/Numbered.antt =====
-- The order of the rows of a table of store.py by `seq`, when a row of a new number is appended.
use causal_continuity_engine.Prelude.{ℕ, ◌≤◌, ◌<◌, List, [], ◌∷◌, ◌++◌, ◌≡◌, refl, ap, ◌∙◌, arith}
use causal_continuity_engine.Store.Rows.{Row, place, in_order}

-- no row has a number above `n`
abbrev pub IsNumbered : {D T : Type 0} → ℕ → List (Row D T) → Type 0
IsNumbered n [] = Unit
IsNumbered n (r ∷ rs) = (r.seq ≤ n) × IsNumbered n rs

pub IsNumbered-append :
    {D T : Type 0} (n m : ℕ) (rows : List (Row D T)) (row : Row D T)
    → IsNumbered n rows
    → n ≤ m
    → row.seq ≤ m
    → IsNumbered m (rows ++ row ∷ [])
IsNumbered-append n m [] row h le new = (new, tt)
IsNumbered-append n m (r ∷ rs) row h le new =
    (omega (arith, h.0), IsNumbered-append n m rs row h.1 le new)

place-last :
    {D T : Type 0} (r row : Row D T) (xs : List (Row D T))
    → r.seq ≤ row.seq
    → place r (xs ++ row ∷ []) ≡ place r xs ++ row ∷ []
unfolding place
place-last r row [] le = ground arith
place-last r row (x ∷ xs) le = ground (arith, place-last r row xs le)

-- a row of a number above all others comes last
pub in_order-last :
    {D T : Type 0} (n : ℕ) (rows : List (Row D T)) (row : Row D T)
    → IsNumbered n rows
    → n < row.seq
    → in_order (rows ++ row ∷ []) ≡ in_order rows ++ row ∷ []
unfolding in_order place
in_order-last n [] row h lt = refl
in_order-last n (r ∷ rs) row h lt =
    ap (place r) (in_order-last n rs row h.1 lt)
    ∙ place-last r row (in_order rs) (omega (arith, h.0))
