-- ===== src/Invalidation/Blocking/Ends.antt =====
-- The search of invalidation.py's `blocking_invalidations` ends.
use causal_continuity_engine.Prelude.{
  ℕ, zero, suc, ◌+◌, ◌-◌, ◌≤◌, String, Bool, true, false, List, [], ◌∷◌, ◌++◌, none, some, contains,
  length, length-append, string_eq, is_empty, ok, err, >>=-eq-ok, ◌≡◌, ◌≢◌, refl, ap, sym, In,
  contains_sound, Error, Result-cases, ◌⊎◌, filter, inl, inr, arith, subst, Bool-cases,
}
use causal_continuity_engine.Graph.Rows.{Host, NodeRow, EdgeRow, Tables}
use causal_continuity_engine.Invalidation.Packet.{Engine}
use causal_continuity_engine.Invalidation.Settle.Stored.{Desk}
use causal_continuity_engine.Invalidation.Blocking.{
  Climb, climb, ascend, is_exhausted, dependencies, ancestors_of, open_invalidations, is_blocker,
  blocking_invalidations,
}

module _ (host : Host) (engine : Engine host) where
  open host use {Time}

  -- the sets with another node
  abbrev pub added : ℕ → EdgeRow host → Climb → Climb
  added depth edge s = record {
    ancestors = edge.dst_id ∷ s.ancestors;
    frontier = s.frontier ++ (edge.dst_id, suc depth) ∷ [];
  }

  -- what a round of the inner loop does
  pub data Round (depth : ℕ) (edge : EdgeRow host) (s : Climb) (after : Climb → Type 0)
      (full : Type 0) : Type 0 where
    known : In edge.dst_id s.ancestors → after s → Round depth edge s after full
    exhausted : full → Round depth edge s after full
    grown :
        length s.ancestors ≤ engine.max_nodes
        → after (added depth edge s)
        → Round depth edge s after full

  pub climb-Round :
      (depth : ℕ) (edge : EdgeRow host) (rest : List (EdgeRow host)) (s : Climb) (r : Bool × Climb)
      → climb host engine depth (edge ∷ rest) s ≡ r
      → Round depth edge s (λ x. climb host engine depth rest x ≡ r) (r ≡ (true, s))
  unfolding climb
  climb-Round depth edge rest s r h = elim (Bool-cases (contains s.ancestors edge.dst_id)) [
    | inl old ↦ known (contains_sound s.ancestors edge.dst_id old) (rw (climb, old) at h)
    | inr new ↦ elim (Bool-cases (is_exhausted host engine depth s.ancestors)) [
      | inl full ↦ exhausted (sym (rw (climb, new, full) at h))
      | inr room ↦ grown (ground (arith, room)) (rw (climb, new, room) at h)
    ]
  ]

  -- how many nodes the search has yet to take from the frontier, at most
  abbrev pub left : List String → List (String × ℕ) → ℕ
  left ancestors frontier = length frontier + (suc engine.max_nodes - length ancestors)

  climb-left :
      (depth : ℕ) (edges : List (EdgeRow host)) (s t : Climb)
      → length s.ancestors ≤ suc engine.max_nodes
      → climb host engine depth edges s ≡ (false, t)
      → (length t.ancestors ≤ suc engine.max_nodes)
        × (left t.ancestors t.frontier ≤ left s.ancestors s.frontier)
  unfolding climb
  climb-left depth [] s t few h =
      let same : s ≡ t = ap (λ (x : Bool × Climb). x.1) h in
      subst
        (λ (x : Climb).
          (length x.ancestors ≤ suc engine.max_nodes)
          × (left x.ancestors x.frontier ≤ left s.ancestors s.frontier))
        same (few, omega arith)
  climb-left depth (edge ∷ rest) s t few h = elim (climb-Round depth edge rest s (false, t) h) [
    | known old later ↦ climb-left depth rest s t few later
    | exhausted full ↦ absurd (ground (arith, ap (λ (x : Bool × Climb). x.0) full))
    | grown room later ↦
        let one : List (String × ℕ) = (edge.dst_id, suc depth) ∷ [] in
        let (fits, less) = climb-left depth rest (added depth edge s) t (omega arith) later in
        (fits, (omega (arith, length-append s.frontier one)))
  ]

  ascend_ends :
      (fuel : ℕ) (ancestors : List String) (frontier : List (String × ℕ)) (now : Time)
      (db : Tables host)
      → length ancestors ≤ suc engine.max_nodes
      → left ancestors frontier ≤ fuel
      → ascend host engine fuel ancestors frontier now db ≢ ok none
  unfolding ascend
  ascend_ends fuel ancestors [] now db few enough h = absurd (ground arith)
  ascend_ends zero ancestors (x ∷ rest) now db few enough h = absurd (omega arith)
  ascend_ends (suc fuel) ancestors (x ∷ rest) now db few enough h =
      let (edges, read, h1) = >>=-eq-ok (dependencies host engine x.0 now db) _ h in
      let s : Climb = record { ancestors = ancestors; frontier = rest } in
      let r = climb host engine x.1 edges s in
      elim (Bool-cases r.0) [
        | inl full ↦ absurd (ground (arith, full))
        | inr whole ↦
            let (fits, less) = climb-left x.1 edges s r.1 few (ap (λ b. (b, r.1)) whole) in
            ascend_ends fuel r.1.ancestors r.1.frontier now db fits (omega arith) (rw whole at h1)
      ]

  ancestors_of_ends :
      (nothing : Bool) (id : String) (now : Time) (db : Tables host)
      → ancestors_of host engine nothing id now db ≢ ok none
  ancestors_of_ends true id now db =
      ascend_ends (suc engine.max_nodes) (id ∷ []) [] now db (omega arith) (omega arith)
  ancestors_of_ends false id now db =
      ascend_ends (suc engine.max_nodes) (id ∷ []) ((id, 0) ∷ []) now db (omega arith) (omega arith)

  -- The search for what blocks a node always ends within the fuel that it is given, on any graph,
  -- with cycles or without: it answers with the blocking invalidations or raises the error of a
  -- read.
  pub blocking_ends :
      (desk : Desk host) (project_id id : String) (now : Time) (db : Tables host)
      → ((blockers : List (NodeRow host)) × (blocking_invalidations host engine desk project_id id
              now db
            ≡ ok (some blockers)))
        ⊎ ((e : Error) × (blocking_invalidations host engine desk project_id id now db ≡ err e))
  unfolding blocking_invalidations
  blocking_ends desk project_id id now db =
      elim (Result-cases (open_invalidations host engine project_id db)) [
        | inl (e, failed) ↦ inr (e, rw failed refl)
        | inr (l, listed) ↦ elim (Result-cases (ancestors_of host engine (is_empty l) id now db)) [
          | inl (e, failed) ↦ inr (e, rw (listed, failed) refl)
          | inr (none, found) ↦ absurd (ancestors_of_ends (is_empty l) id now db found)
          | inr (some f, found) ↦
              inl (filter (is_blocker host engine desk f.0 f.1) l, rw (listed, found) refl)
        ]
      ]
