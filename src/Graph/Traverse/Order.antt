-- ===== src/Graph/Traverse/Order.antt =====
-- The order of the answer of graph.py's `dependents`.
use causal_continuity_engine.Prelude.{
  Bool, true, false, nat_eq, if◌then◌else◌, List, [], ◌∷◌, some, ok, String, ◌≡◌, refl, sym, subst,
  arith, inl, inr, ◌≤◌,
}
use causal_continuity_engine.Graph.Rows.{Host, Tables}
use causal_continuity_engine.Graph.Traverse.{
  Bounds, Hit, insert_hit, sort_hits, sorts_before, dependents,
}
use causal_continuity_engine.Graph.Traverse.Answer.{dependents-cases}

module _ (host : Host) where
  open host use {Time, Float, lt}

  -- the first of the hits is not before `x`
  abbrev Leads : Hit host → List (Hit host) → Type 0
  Leads x [] = Unit
  Leads x (y ∷ rest) = sorts_before host y x ≡ false

  -- no hit is before the one that it follows: none is nearer, nor as near and stronger
  abbrev Ordered : List (Hit host) → Type 0
  Ordered [] = Unit
  Ordered (x ∷ rest) = Leads x rest × Ordered rest

  -- every hit but the first, compared with the one before it
  abbrev pub IsNearestFirst : List (Hit host) → Type 0
  IsNearestFirst [] = Unit
  IsNearestFirst (x ∷ []) = Unit
  IsNearestFirst (x ∷ y ∷ rest) =
      (x.depth ≤ y.depth)
      × (x.depth ≡ y.depth → lt x.strength y.strength ≡ false)
      × IsNearestFirst (y ∷ rest)

  Ordered-IsNearestFirst : (hits : List (Hit host)) → Ordered hits → IsNearestFirst hits
  Ordered-IsNearestFirst [] h = tt
  Ordered-IsNearestFirst (x ∷ []) h = tt
  Ordered-IsNearestFirst (x ∷ y ∷ rest) h =
      (ground (arith, h.0), λ e. ground (arith, h.0, e), Ordered-IsNearestFirst (y ∷ rest) h.1)

  module _ (asymmetric : (a b : Float) → lt a b ≡ true → lt b a ≡ false) where
    sorts_before-asymmetric :
        (x y : Hit host) → sorts_before host y x ≡ true → sorts_before host x y ≡ false
    sorts_before-asymmetric x y h =
        ground (arith, asymmetric y.strength x.strength, asymmetric x.strength y.strength)

    Leads-if :
        (z x y : Hit host) (rest hits : List (Hit host)) (b : Bool)
        → sorts_before host x z ≡ false
        → sorts_before host y z ≡ false
        → Leads z (if b then y ∷ rest else x ∷ hits)
    Leads-if z x y rest hits true h k = k
    Leads-if z x y rest hits false h k = h

    insert_hit-Leads :
        (z x : Hit host) (hits : List (Hit host))
        → sorts_before host x z ≡ false
        → Leads z hits
        → Leads z (insert_hit host x hits)
    unfolding insert_hit
    insert_hit-Leads z x [] h k = h
    insert_hit-Leads z x (y ∷ hits) h k =
        Leads-if z x y (insert_hit host x hits) (y ∷ hits) (sorts_before host y x) h k

    Ordered-if :
        (x y : Hit host) (rest hits : List (Hit host)) (b : Bool)
        → sorts_before host y x ≡ b
        → (sorts_before host x y ≡ false → Leads y rest × Ordered rest)
        → Leads y hits × Ordered hits
        → Ordered (if b then y ∷ rest else x ∷ y ∷ hits)
    Ordered-if x y rest hits true e later h = later (sorts_before-asymmetric x y e)
    Ordered-if x y rest hits false e later h = (e, h)

    insert_hit-Ordered :
        (x : Hit host) (hits : List (Hit host)) → Ordered hits → Ordered (insert_hit host x hits)
    unfolding insert_hit
    insert_hit-Ordered x [] h = (tt, tt)
    insert_hit-Ordered x (y ∷ hits) h =
        Ordered-if x y (insert_hit host x hits) hits (sorts_before host y x) refl
          (λ after. (insert_hit-Leads y x hits after h.0, insert_hit-Ordered x hits h.1)) h

    sort_hits-Ordered : (best : List (String × Hit host)) → Ordered (sort_hits host best)
    unfolding sort_hits
    sort_hits-Ordered [] = tt
    sort_hits-Ordered (x ∷ best) =
        insert_hit-Ordered x.1 (sort_hits host best) (sort_hits-Ordered best)

    -- Provided that the order of floats is asymmetric, in the answer of a traversal no hit is farther
    -- than the one after it, and none is weaker than one after it that is as far.
    pub dependents-Ordered :
        (bounds : Bounds host) (id : String) (now : Time) (db : Tables host)
        (hits : List (Hit host))
        → dependents host bounds id now db ≡ some (ok hits)
        → IsNearestFirst hits
    dependents-Ordered bounds id now db hits h =
        elim (dependents-cases host bounds id now db hits h) [
          | inl nothing ↦ subst IsNearestFirst (sym nothing) tt
          | inr (t, ended, sorted) ↦
              Ordered-IsNearestFirst hits (subst Ordered sorted (sort_hits-Ordered t.best))
        ]
