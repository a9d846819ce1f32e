-- ===== src/Graph/Table.antt =====
-- A table whose rows are versions: the newest one of a key is open, a write closes it and appends.
-- Both tables of graph.py are of this kind, and `_current_row` reads both.
use causal_continuity_engine.Prelude.{
  ℕ, ◌+◌, ◌-◌, ◌≤◌, String, Bool, true, false, ◌&&◌, ◌==◌, string_eq, if◌then◌else◌, List, [], ◌∷◌,
  ◌++◌, Option, none, some, In, map, filter, ◌≡◌, ◌⊎◌, inl, inr, refl, arith,
}
use text.Mathlib.TextEquality.{eq_iff}

module _ {Row : Type 0} (key : Row → String) (is_open : Row → Bool) where
  -- the row that `WHERE key = ? AND tx_to IS NULL` selects
  abbrev pub is_current : String → Row → Bool
  is_current k r = key r == k && is_open r

  -- `_current_row`
  unfoldable pub current_row : String → List Row → Option Row
  current_row k [] = none
  current_row k (r ∷ rows) = if is_current k r then some r else current_row k rows

  -- the UPDATE of that row
  unfoldable pub close_current : (Row → Row) → String → List Row → List Row
  close_current close k [] = []
  close_current close k (r ∷ rows) =
      let rest = close_current close k rows in if is_current k r then close r ∷ rows else r ∷ rest

  -- how many rows of a key are open
  unfoldable pub live : String → List Row → ℕ
  live k [] = 0
  live k (r ∷ rows) = (if is_current k r then 1 else 0) + live k rows

  pub live-append : (k : String) (xs ys : List Row) → live k (xs ++ ys) ≡ live k xs + live k ys
  unfolding live
  live-append k [] ys = ground arith
  live-append k (r ∷ xs) ys = ground (arith, live-append k xs ys)

  pub current_row-none :
      (k : String) (rows : List Row) → live k rows ≡ 0 → current_row k rows ≡ none
  unfolding live current_row
  current_row-none k [] h = refl
  current_row-none k (r ∷ rows) h = ground (arith, current_row-none k rows)

  pub live-zero : (k : String) (rows : List Row) → current_row k rows ≡ none → live k rows ≡ 0
  unfolding live current_row
  live-zero k [] h = refl
  live-zero k (r ∷ rows) h = ground (arith, live-zero k rows)

  pub live-pos :
      (k : String) (rows : List Row) (r : Row) → current_row k rows ≡ some r → 1 ≤ live k rows
  unfolding live current_row
  live-pos k [] r h = absurd (ground arith)
  live-pos k (x ∷ rows) r h = ground (arith, live-pos k rows r)

  pub current_row-append :
      (k : String) (xs ys : List Row)
      → current_row k (xs ++ ys)
        ≡ elim (current_row k xs) [ none ↦ current_row k ys | some r ↦ some r ]
  unfolding current_row
  current_row-append k [] ys = refl
  current_row-append k (r ∷ xs) ys = ground (arith, current_row-append k xs ys)

  pub current_row_sound :
      (k : String) (rows : List Row) (r : Row)
      → current_row k rows ≡ some r
      → In r rows × (key r ≡ k) × (is_open r ≡ true)
  unfolding current_row
  current_row_sound k [] r h = absurd (ground arith)
  current_row_sound k (x ∷ rows) r h = ground (arith, current_row_sound k rows r, eq_iff (key x) k)

  module _ (close : Row → Row) (same_key : (r : Row) → key (close r) ≡ key r)
      (closes : (r : Row) → is_open (close r) ≡ false) where
    pub live-close_current :
        (k j : String) (rows : List Row)
        → live j (close_current close k rows) ≡ (if j == k then live j rows - 1 else live j rows)
    unfolding live close_current
    live-close_current k j [] = ground arith
    live-close_current k j (r ∷ rows) = ground (
      arith,
      live-close_current k j rows,
      same_key r,
      closes r,
      eq_iff (key r) k,
      eq_iff (key r) j,
      eq_iff j k,
    )

    -- another key's row is found as before
    pub current_row-close_current :
        (k j : String) (rows : List Row)
        → (j == k) ≡ false
        → current_row j (close_current close k rows) ≡ current_row j rows
    unfolding current_row close_current
    current_row-close_current k j [] h = refl
    current_row-close_current k j (r ∷ rows) h = ground (
      arith,
      current_row-close_current k j rows,
      closes r,
      same_key r,
      eq_iff (key r) k,
      eq_iff (key r) j,
      eq_iff j k,
    )

    inclose :
        (c : Bool) (rows later : List Row) (found : Option Row) (r x : Row)
        → (In x later → In x rows ⊎ ((o : Row) × (found ≡ some o) × (x ≡ close o)))
        → In x (if c then close r ∷ rows else r ∷ later)
        → In x (r ∷ rows) ⊎ ((o : Row) × ((if c then some r else found) ≡ some o) × (x ≡ close o))
    inclose true rows later found r x ih (inl e) = inr (_, refl, e)
    inclose true rows later found r x ih (inr i) = inl (inr i)
    inclose false rows later found r x ih (inl e) = inl (inl e)
    inclose false rows later found r x ih (inr i) = elim (ih i) [
      | inl old ↦ inl (inr old)
      | inr closed ↦ inr closed
    ]

    -- a row of the updated table is an old row, or the closed one
    pub In-close_current :
        (k : String) (rows : List Row) (x : Row)
        → In x (close_current close k rows)
        → In x rows ⊎ ((r : Row) × (current_row k rows ≡ some r) × (x ≡ close r))
    unfolding close_current current_row
    In-close_current k [] x h = elim h [ ]
    In-close_current k (r ∷ rows) x h =
        inclose (is_current k r) rows (close_current close k rows) (current_row k rows) r x
          (In-close_current k rows x) h

  -- a filter and a view that do not see a row being closed do not see the update
  pub filter-close_current {κ} :
      {A : Type κ} (f : Row → A) (p : Row → Bool) (close : Row → Row) (k : String) (rows : List Row)
      → ((r : Row) → f (close r) ≡ f r)
      → ((r : Row) → is_open r ≡ true → p (close r) ≡ p r)
      → map f (filter p (close_current close k rows)) ≡ map f (filter p rows)
  unfolding close_current
  filter-close_current f p close k [] view test = refl
  filter-close_current f p close k (r ∷ rows) view test =
      ground (arith, filter-close_current f p close k rows view test, view r, test r)

  pub not_current :
      (k : String) (rows : List Row) (r : Row)
      → live k rows ≡ 0
      → In r rows
      → is_current k r ≡ false
  unfolding live
  not_current k [] r h i = elim i [ ]
  not_current k (x ∷ rows) r h (inl e) = rw e (ground arith)
  not_current k (x ∷ rows) r h (inr i) = not_current k rows r (ground arith) i
