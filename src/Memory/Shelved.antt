-- ===== src/Memory/Shelved.antt =====
-- The members of a tier, in memory.py, against the tier of each node.
use causal_continuity_engine.Prelude.{
  ◌≤◌, String, Bool, true, false, ◌&&◌, ◌==◌, string_eq, if◌then◌else◌, List, [], ◌∷◌, map, filter,
  Option, none, some, contains, insert, lookup, lookup-insert, with_key, with_key-insert, ok,
  >>=-eq-ok, ◌≡◌, refl, ap, sym, ◌∙◌, inl, inr, arith, Bool-cases, Option-cases, ==_sound, ==_refl,
}
use text.Mathlib.TextEquality.{eq_iff}
use causal_continuity_engine.Graph.Rows.{Host}
use causal_continuity_engine.Invalidation.Reached.{ok_injective}
use causal_continuity_engine.Memory.Rows.{
  Tier, Assignment, Shelves, Keeper, effective_tenant, require_own_project,
}
use causal_continuity_engine.Memory.Tiers.{
  last_row, tier_left, shelve, is_member, tier_of, tier_members,
}

module _ (host : Host) where
  -- the tier that a node has in the state
  abbrev shelf : String → List (String × Option Tier) → Option Tier
  shelf id state = elim (lookup id state) [ none ↦ none | some held ↦ held ]

  -- the tier after the rows, on a state
  abbrev moved : Option (Assignment host) → Option Tier → Option Tier
  moved none before = before
  moved (some r) before = tier_left host r

  moved_assigned :
      (o : Option (Assignment host))
      → moved o none ≡ (elim o [ none ↦ none | some r ↦ tier_left host r ])
  moved_assigned none = refl
  moved_assigned (some r) = refl

  -- the state after one row
  abbrev next_state :
      String → Assignment host → List (String × Option Tier) → List (String × Option Tier)
  next_state project_id r state =
      if r.project_id == project_id then insert r.node_id (tier_left host r) state else state

  abbrev is_of : String → String → Assignment host → Bool
  is_of project_id id r = r.project_id == project_id && r.node_id == id

  shelf-insert :
      (k id : String) (v : Option Tier) (m : List (String × Option Tier))
      → shelf id (insert k v m) ≡ (if k == id then v else shelf id m)
  shelf-insert k id v m =
      let put =
        ap (λ (x : Option (Option Tier)). elim x [ none ↦ none | some held ↦ held ])
          (lookup-insert k id v m) in
      elim (Bool-cases (k == id)) [
        | inl here ↦
            let back : (id == k) ≡ true = ap (λ j. j == k) (sym (==_sound k id here)) ∙ ==_refl k in
            put ∙ (rw (here, back) refl)
        | inr there ↦
            let back : (id == k) ≡ false = ground (arith, there, eq_iff id k, eq_iff k id) in
            put ∙ (rw (there, back) refl)
      ]

  shelf-next_state :
      (project_id id : String) (r : Assignment host) (state : List (String × Option Tier))
      → shelf id (next_state project_id r state)
        ≡ (if is_of project_id id r then tier_left host r else shelf id state)
  shelf-next_state project_id id r state = elim (Bool-cases (r.project_id == project_id)) [
    | inr other ↦ rw other refl
    | inl own ↦ rw own (shelf-insert r.node_id id (tier_left host r) state)
  ]

  shelf-shelve :
      (project_id id : String) (rows : List (Assignment host)) (state : List (String × Option Tier))
      → shelf id (shelve host project_id rows state)
        ≡ moved (last_row host project_id id rows) (shelf id state)
  unfolding shelve last_row
  shelf-shelve project_id id [] state = refl
  shelf-shelve project_id id (r ∷ rest) state =
      let later = shelf-shelve project_id id rest (next_state project_id r state) in
      let step = shelf-next_state project_id id r state in
      elim (Option-cases (last_row host project_id id rest)) [
        | inr (x, e) ↦ later ∙ (rw e refl)
        | inl e ↦
            later
            ∙ (rw e (
                step ∙ (elim (Bool-cases (is_of project_id id r)) [
                  | inl own ↦ rw own refl
                  | inr other ↦ rw other refl
                ])))
      ]

  -- each node has one entry
  with_key-shelve :
      (project_id id : String) (rows : List (Assignment host)) (state : List (String × Option Tier))
      → with_key id state ≤ 1
      → with_key id (shelve host project_id rows state) ≤ 1
  unfolding shelve
  with_key-shelve project_id id [] state h = h
  with_key-shelve project_id id (r ∷ rest) state h =
      with_key-shelve project_id id rest (next_state project_id r state)
        (elim (Bool-cases (r.project_id == project_id)) [
          | inl own ↦ rw own (with_key-insert r.node_id id (tier_left host r) state h)
          | inr other ↦ rw other h
        ])

  abbrev names_of : List (String × Option Tier) → List String
  names_of m = map (λ (x : String × Option Tier). x.0) m

  -- a node without an entry is no member
  contains-no_key :
      (p : String × Option Tier → Bool) (m : List (String × Option Tier)) (id : String)
      → with_key id m ≡ 0
      → contains (names_of (filter p m)) id ≡ false
  contains-no_key p [] id h = refl
  contains-no_key p (x ∷ m) id h = elim (Bool-cases (id == x.0)) [
    | inl here ↦ absurd (ground (arith, here))
    | inr other ↦
        let later = contains-no_key p m id (rw other at h) in
        elim (Bool-cases (p x)) [
          | inl kept ↦ rw (kept, other) later
          | inr dropped ↦ rw dropped later
        ]
  ]

  shelf-here :
      (id j : String) (w : Option Tier) (m : List (String × Option Tier))
      → (id == j) ≡ true
      → w ≡ shelf id ((j, w) ∷ m)
  shelf-here id j w m here = rw (shelf, here) refl

  shelf-there :
      (id j : String) (w : Option Tier) (m : List (String × Option Tier))
      → (id == j) ≡ false
      → shelf id m ≡ shelf id ((j, w) ∷ m)
  shelf-there id j w m other = rw (shelf, other) refl

  -- a node is a member where its entry is one
  contains-filter :
      (p : String × Option Tier → Bool) (m : List (String × Option Tier)) (id : String)
      → with_key id m ≤ 1
      → p (id, none) ≡ false
      → contains (names_of (filter p m)) id ≡ p (id, shelf id m)
  contains-filter p [] id h nothing = sym nothing
  contains-filter p ((j, w) ∷ m) id h nothing = elim (Bool-cases (id == j)) [
    | inl here ↦
        let none_later = contains-no_key p m id (ground (arith, here)) in
        let first : p (id, w) ≡ p (id, shelf id ((j, w) ∷ m)) =
          ap (λ h. p (id, h)) (shelf-here id j w m here) in
        let same : p (j, w) ≡ p (id, w) = ap (λ k. p (k, w)) (sym (==_sound id j here)) in
        elim (Bool-cases (p (j, w))) [
          | inl kept ↦ rw (kept, here) (sym kept ∙ (same ∙ first))
          | inr dropped ↦ rw dropped (none_later ∙ (sym dropped ∙ (same ∙ first)))
        ]
    | inr other ↦
        let later = contains-filter p m id (rw other at h) nothing in
        let rest = ap (λ h. p (id, h)) (shelf-there id j w m other) in
        elim (Bool-cases (p (j, w))) [
          | inl kept ↦ rw (kept, other) (later ∙ rest)
          | inr dropped ↦ rw dropped (later ∙ rest)
        ]
  ]

  module _ (keeper : Keeper host) where
    pub tier_members-tier_of :
        (project_id id : String) (tier : Tier) (given tenant_id : Option String) (s : Shelves host)
        (members : List String) (held : Option Tier)
        → effective_tenant host keeper given ≡ ok tenant_id
        → tier_members host keeper project_id tier given s ≡ ok members
        → tier_of host keeper project_id id s ≡ ok held
        → contains members id ≡ is_member host keeper project_id tier tenant_id s.tables (id, held)
    unfolding tier_members tier_of
    tier_members-tier_of project_id id tier given tenant_id s members held bound listed known =
        let (t, bound2, h1) = >>=-eq-ok (effective_tenant host keeper given) _ listed in
        let (u, own, h2) = >>=-eq-ok (require_own_project host keeper project_id s.tables) _ h1 in
        let (v, own2, k1) =
          >>=-eq-ok (require_own_project host keeper project_id s.tables) _ known in
        let same : t ≡ tenant_id = ok_injective t tenant_id (sym bound2 ∙ bound) in
        let p = is_member host keeper project_id tier t s.tables in
        let state = shelve host project_id s.assignments [] in
        let found =
          contains-filter p state id (with_key-shelve project_id id s.assignments [] (omega arith))
            refl in
        let all = ok_injective (names_of (filter p state)) members h2 in
        let now_held : shelf id state ≡ held =
          shelf-shelve project_id id s.assignments []
          ∙ (moved_assigned (last_row host project_id id s.assignments) ∙ ok_injective _ _ k1) in
        ap (λ l. contains l id) (sym all)
        ∙ (found
            ∙ (ap (λ h. p (id, h)) now_held
                ∙ ap (λ k. is_member host keeper project_id tier k s.tables (id, held)) same))
