-- ===== src/Prelude/Lists.antt =====
-- Lists measured by native numbers, Boolean folds, and association lists as Python's `dict`.
use Prim.Native.Nat.{ℕ, zero, suc, ◌+◌, ◌≤◌}
use mathlib.Core.Path.{◌≡◌, refl, sym, ap, ◌∙◌}
use mathlib.Core.Logic.{◌⊎◌, inl, inr}
use mathlib.Core.Bool.{Bool, true, false, ◌&&◌, ◌||◌}
use mathlib.Core.List.{List, [], ◌∷◌, ◌++◌}
use mathlib.Core.Option.{Option, none, some}
use native.Mathlib.Omega.{arith}
use causal_continuity_engine.Prelude.Tests.{Eq, ◌==◌, if◌then◌else◌}

module _ {ℓ} {A : Type ℓ} where
  abbrev pub length : List A → ℕ
  length [] = 0
  length (x ∷ xs) = suc (length xs)

  -- `any(p(x) for x in xs)`
  abbrev pub any : (A → Bool) → List A → Bool
  any p [] = false
  any p (x ∷ xs) = p x || any p xs

  -- `all(p(x) for x in xs)`
  abbrev pub all : (A → Bool) → List A → Bool
  all p [] = true
  all p (x ∷ xs) = p x && all p xs

  -- `[x for x in xs if p(x)]`
  abbrev pub filter : (A → Bool) → List A → List A
  filter p [] = []
  filter p (x ∷ xs) = let rest = filter p xs in if p x then x ∷ rest else rest

  -- `not xs`, for a list
  abbrev pub is_empty : List A → Bool
  is_empty [] = true
  is_empty (x ∷ xs) = false

  abbrev pub get_elem? : List A → ℕ → Option A
  get_elem? [] i = none
  get_elem? (x ∷ xs) zero = some x
  get_elem? (x ∷ xs) (suc i) = get_elem? xs i

  abbrev pub take : ℕ → List A → List A
  take zero xs = []
  take (suc n) [] = []
  take (suc n) (x ∷ xs) = x ∷ take n xs

  abbrev pub All {κ} : (A → Type κ) → List A → Type κ
  All P [] = Unit
  All P (x ∷ xs) = P x × All P xs

-- Membership as a sum, which the tactics take apart.
abbrev pub In : {A : Type 0} → A → List A → Type 0
In a [] = ⊥
In a (x ∷ xs) = (a ≡ x) ⊎ In a xs

module _ {ℓ} {A : Type ℓ} where
  pub length-append : (xs ys : List A) → length (xs ++ ys) ≡ length xs + length ys
  length-append [] ys = omega arith
  length-append (x ∷ xs) ys = omega (arith, length-append xs ys)

  pub filter-append :
      (p : A → Bool) (xs ys : List A) → filter p (xs ++ ys) ≡ filter p xs ++ filter p ys
  filter-append p [] ys = refl
  filter-append p (x ∷ xs) ys = ground (arith, filter-append p xs ys)

  pub any-append : (p : A → Bool) (xs ys : List A) → any p (xs ++ ys) ≡ (any p xs || any p ys)
  any-append p [] ys = refl
  any-append p (x ∷ xs) ys = ground (arith, any-append p xs ys)

module _ {A : Type 0} ⦃e : Eq A⦄ where
  -- `a in xs`
  abbrev pub contains : List A → A → Bool
  contains [] a = false
  contains (x ∷ xs) a = a == x || contains xs a

  pub contains_sound : (xs : List A) (a : A) → contains xs a ≡ true → In a xs
  contains_sound [] a h = ground arith
  contains_sound (x ∷ xs) a h = ground (arith, e.beq_iff a x, contains_sound xs a)

  pub contains_complete : (xs : List A) (a : A) → In a xs → contains xs a ≡ true
  contains_complete [] a h = elim h [ ]
  contains_complete (x ∷ xs) a h = ground (arith, e.beq_iff a x, contains_complete xs a)

-- A `dict` as an association list in insertion order; the first entry of a key is its value.
module _ {ℓ κ} {K : Type ℓ} {V : Type κ} ⦃e : Eq K⦄ where
  -- `d.get(k)`
  abbrev pub lookup : K → List (K × V) → Option V
  lookup k [] = none
  lookup k ((j, v) ∷ m) = if k == j then some v else lookup k m

  -- `d[k] = v`: a key that is there keeps its place
  abbrev pub insert : K → V → List (K × V) → List (K × V)
  insert k v [] = (k, v) ∷ []
  insert k v ((j, w) ∷ m) = if k == j then (j, v) ∷ m else (j, w) ∷ insert k v m

  pub lookup-insert :
      (k j : K) (v : V) (m : List (K × V))
      → lookup j (insert k v m) ≡ (if j == k then some v else lookup j m)
  lookup-insert k j v [] = refl
  lookup-insert k j v ((i, w) ∷ m) =
      ground (arith, e.beq_iff j k, e.beq_iff k i, e.beq_iff j i, lookup-insert k j v m)

module _ {ℓ} {A : Type ℓ} where
  pub length-take_le : (n : ℕ) (xs : List A) → n ≤ length xs → length (take n xs) ≡ n
  length-take_le zero xs h = refl
  length-take_le (suc n) [] h = absurd (omega arith)
  length-take_le (suc n) (x ∷ xs) h = omega (arith, length-take_le n xs)

  pub take-append_length : (xs ys : List A) → take (length xs) (xs ++ ys) ≡ xs
  take-append_length [] ys = refl
  take-append_length (x ∷ xs) ys = ap (◌∷◌ x) (take-append_length xs ys)

pub length-filter_le {ℓ} :
    {A : Type ℓ} (p : A → Bool) (xs : List A) → length (filter p xs) ≤ length xs
length-filter_le p [] = omega arith
length-filter_le p (x ∷ xs) = ground (arith, length-filter_le p xs)

pub In-append : {A : Type 0} (xs ys : List A) (a : A) → In a (xs ++ ys) → In a xs ⊎ In a ys
In-append [] ys a h = inr h
In-append (x ∷ xs) ys a (inl e) = inl (inl e)
In-append (x ∷ xs) ys a (inr h) = elim (In-append xs ys a h) [ inl i ↦ inl (inr i) | inr i ↦ inr i ]

In-filter-cons :
    {A : Type 0} (p : A → Bool) (x : A) (xs : List A) (a : A) (b : Bool)
    → p x ≡ b
    → (In a (filter p xs) → In a xs × (p a ≡ true))
    → In a (if b then x ∷ filter p xs else filter p xs)
    → In a (x ∷ xs) × (p a ≡ true)
In-filter-cons p x xs a true e ih (inl same) = (inl same, ap p same ∙ e)
In-filter-cons p x xs a true e ih (inr i) = (inr (ih i).0, (ih i).1)
In-filter-cons p x xs a false e ih i = (inr (ih i).0, (ih i).1)

pub In-filter :
    {A : Type 0} (p : A → Bool) (xs : List A) (a : A) → In a (filter p xs) → In a xs × (p a ≡ true)
In-filter p [] a h = elim h [ ]
In-filter p (x ∷ xs) a h = In-filter-cons p x xs a (p x) refl (In-filter p xs a) h

pub List-cases {ℓ} :
    {A : Type ℓ} (xs : List A) → (xs ≡ []) ⊎ ((x : A) × (rest : List A) × (xs ≡ x ∷ rest))
List-cases [] = inl refl
List-cases (x ∷ rest) = inr (x, rest, refl)

In-insert-cons :
    {K V : Type 0} (k : K) (v : V) (x y : K × V) (inserted m : List (K × V)) (b : Bool)
    → (b ≡ true → k ≡ y.0)
    → (In x inserted → (x ≡ (k, v)) ⊎ In x m)
    → In x (if b then (y.0, v) ∷ m else y ∷ inserted)
    → (x ≡ (k, v)) ⊎ In x (y ∷ m)
In-insert-cons k v x y inserted m true same ih (inl e) =
    inl (e ∙ ap (λ j. (j, v)) (sym (same refl)))
In-insert-cons k v x y inserted m true same ih (inr i) = inr (inr i)
In-insert-cons k v x y inserted m false same ih (inl e) = inr (inl e)
In-insert-cons k v x y inserted m false same ih (inr i) = elim (ih i) [
  | inl e ↦ inl e
  | inr j ↦ inr (inr j)
]

module _ {K V : Type 0} ⦃e : Eq K⦄ where
  -- an entry of an updated `dict` is the new one, or was there
  pub In-insert :
      (k : K) (v : V) (m : List (K × V)) (x : K × V) → In x (insert k v m) → (x ≡ (k, v)) ⊎ In x m
  In-insert k v [] x (inl same) = inl same
  In-insert k v [] x (inr nowhere) = elim nowhere [ ]
  In-insert k v (y ∷ m) x h =
      In-insert-cons k v x y (insert k v m) m (k == y.0) (λ h. (e.beq_iff k y.0).0 h)
        (In-insert k v m x) h

  -- how many entries have the key
  abbrev pub with_key : K → List (K × V) → ℕ
  with_key k m = length (filter (λ x. k == x.0) m)

  with_key-other :
      (k j : K) (v : V) (m : List (K × V))
      → (j == k) ≡ false
      → with_key j (insert k v m) ≡ with_key j m
  with_key-other k j v [] h = ground arith
  with_key-other k j v (y ∷ m) h =
      ground (arith, e.beq_iff k y.0, e.beq_iff j y.0, e.beq_iff j k, with_key-other k j v m h)

  -- a key that had no second entry gets none
  pub with_key-insert :
      (k j : K) (v : V) (m : List (K × V)) → with_key j m ≤ 1 → with_key j (insert k v m) ≤ 1
  with_key-insert k j v [] h = ground arith
  with_key-insert k j v (y ∷ m) h = ground (
    arith,
    e.beq_iff k y.0,
    e.beq_iff j y.0,
    e.beq_iff j k,
    with_key-other k j v m,
    with_key-insert k j v m,
  )

pub length-filter_same :
    {A : Type 0} (p q : A → Bool) (xs : List A)
    → ((x : A) → In x xs → p x ≡ q x)
    → length (filter p xs) ≡ length (filter q xs)
length-filter_same p q [] h = refl
length-filter_same p q (x ∷ xs) h =
    ground (arith, h x (inl refl), length-filter_same p q xs (λ y i. h y (inr i)))
