-- ===== src/Graph/Traverse/Answer.antt =====
-- The sorted answer of graph.py's `dependents`.
use causal_continuity_engine.Core.{is_public_identifier}
use causal_continuity_engine.Prelude.{
  ℕ, suc, ◌≤◌, String, Bool, true, false, not, ◌||◌, ◌==◌, any, map, is_empty, if◌then◌else◌, List,
  [], ◌∷◌, Option, none, some, length, filter, In, with_key, ◌⊎◌, Result, ok, err, ◌≡◌, refl, ap,
  sym, ◌∙◌, subst, arith, Bool-cases, inl, inr, string_eq, value_error, length-filter_same,
}
use causal_continuity_engine.Graph.Rows.{Host, EdgeRow, Tables, outside_unit}
use causal_continuity_engine.Graph.Adjacent.{in_edges}
use causal_continuity_engine.Graph.Traverse.{
  Search, Visit, Bounds, Hit, traverse, start, insert_hit, sort_hits, sorts_before, dependents,
  rounds, sorted_answer, bad_weight,
}
use causal_continuity_engine.Graph.Traverse.Walks.{
  Walk, IsReached, IsSound, traverse-IsSound, at_origin,
}

module _ (host : Host) where
  open host use {Time, Float, lt, tenths}

  module _ (p : Hit host → Bool) where
    filter-insert_hit :
        (x : Hit host) (hits : List (Hit host))
        → length (filter p (insert_hit host x hits)) ≡ length (filter p (x ∷ hits))
    unfolding insert_hit
    filter-insert_hit x [] = refl
    filter-insert_hit x (y ∷ hits) = ground (arith, filter-insert_hit x hits)

    filter-sort_hits :
        (best : List (String × Hit host))
        → length (filter p (sort_hits host best))
          ≡ length (filter (λ (x : String × Hit host). p x.1) best)
    unfolding sort_hits
    filter-sort_hits [] = refl
    filter-sort_hits (x ∷ best) =
        ground (arith, filter-insert_hit x.1 (sort_hits host best), filter-sort_hits best)

  In-insert_hit :
      (x h : Hit host) (hits : List (Hit host))
      → In h (insert_hit host x hits)
      → (h ≡ x) ⊎ In h hits
  unfolding insert_hit
  In-insert_hit x h [] i = i
  In-insert_hit x h (y ∷ hits) i = elim (Bool-cases (sorts_before host y x)) [
    | inl later ↦ ground (arith, later, In-insert_hit x h hits)
    | inr sooner ↦ ground (arith, sooner)
  ]

  In-sort_hits :
      (best : List (String × Hit host)) (h : Hit host)
      → In h (sort_hits host best)
      → (x : String × Hit host) × In x best × (h ≡ x.1)
  unfolding sort_hits
  In-sort_hits [] h i = elim i [ ]
  In-sort_hits (x ∷ best) h i = elim (In-insert_hit x.1 h (sort_hits host best) i) [
    | inl same ↦ (x, inl refl, same)
    | inr j ↦ let (y, k, same) = In-sort_hits best h j in (y, inr k, same)
  ]

  length-insert_hit :
      (x : Hit host) (hits : List (Hit host)) → length (insert_hit host x hits) ≡ suc (length hits)
  unfolding insert_hit
  length-insert_hit x [] = refl
  length-insert_hit x (y ∷ hits) = ground (arith, length-insert_hit x hits)

  length-sort_hits : (best : List (String × Hit host)) → length (sort_hits host best) ≡ length best
  unfolding sort_hits
  length-sort_hits [] = refl
  length-sort_hits (x ∷ best) =
      omega (arith, length-insert_hit x.1 (sort_hits host best), length-sort_hits best)

  -- how many hits are about the node
  abbrev pub hits_of : String → List (Hit host) → ℕ
  hits_of id hits = length (filter (λ (h : Hit host). id == h.node_id) hits)

  hits_of-sort_hits :
      (best : List (String × Hit host)) (id : String)
      → ((x : String × Hit host) → In x best → x.0 ≡ x.1.node_id)
      → hits_of id (sort_hits host best) ≡ with_key id best
  hits_of-sort_hits best id keyed =
      filter-sort_hits (λ h. id == h.node_id) best
      ∙ length-filter_same (λ (x : String × Hit host). id == x.1.node_id) (λ x. id == x.0) best
          (λ x i. ap (λ k. id == k) (sym (keyed x i)))

  answer-cases :
      (x : Option (Result (Search host))) (hits : List (Hit host))
      → sorted_answer host x ≡ some (ok hits)
      → (t : Search host) × (x ≡ some (ok t)) × (sort_hits host t.best ≡ hits)
  answer-cases none hits h = absurd (ground arith)
  answer-cases (some (err e)) hits h = absurd (ground arith)
  answer-cases (some (ok t)) hits h = (t, refl, ground arith)

  -- the edges that the traversal of the store reads
  abbrev pub edges_into : Bounds host → Time → Tables host → String → Result (List (EdgeRow host))
  edges_into bounds now db id =
      in_edges host id (some (map (λ (w : String × Float). w.0) bounds.weights)) none now db

  dependents_inverse :
      (bad empty : Bool) (hits : List (Hit host)) (x : Option (Result (Search host)))
      → (if bad
          then some (err value_error)
          else if empty
          then some (ok [])
          else sorted_answer host x)
        ≡ some (ok hits)
      → (hits ≡ []) ⊎ ((t : Search host) × (x ≡ some (ok t)) × (sort_hits host t.best ≡ hits))
  dependents_inverse true empty hits x h = absurd (ground arith)
  dependents_inverse false true hits x h = inl (ground arith)
  dependents_inverse false false hits x h = inr (answer-cases x hits h)

  pub dependents-cases :
      (bounds : Bounds host) (id : String) (now : Time) (db : Tables host) (hits : List (Hit host))
      → dependents host bounds id now db ≡ some (ok hits)
      → (hits ≡ [])
        ⊎ ((t : Search host) × (traverse host bounds
                (edges_into bounds now db)
                (rounds (length db.edges) bounds.max_depth)
                (start host bounds id)
              ≡ some (ok t))
            × (sort_hits host t.best ≡ hits))
  unfolding dependents
  dependents-cases bounds id now db hits h =
      dependents_inverse
        (not (is_public_identifier id)
          || outside_unit host bounds.min_strength
          || any (bad_weight host) bounds.weights)
        (is_empty bounds.weights) hits
        (traverse host bounds (edges_into bounds now db) (rounds (length db.edges) bounds.max_depth)
          (start host bounds id))
        h

  start-IsSound :
      (bounds : Bounds host) (into : String → Result (List (EdgeRow host))) (id : String)
      → IsSound host bounds into id (start host bounds id)
  start-IsSound bounds into id = (
    (λ e i. elim i [
      | inl same ↦
          subst
            (λ (x : Visit host).
              Walk host bounds into id x.depth x.current x.strength x.path
              × (x.depth ≤ bounds.max_depth))
            (sym same) (at_origin, omega arith)
      | inr nowhere ↦ absurd nowhere
    ]),
    (λ x i. absurd i),
    omega arith,
    (λ node. omega arith),
  )

  -- Whatever `dependents` returns is at most `max_nodes` hits, none of them about the same node as
  -- another, and each is the end of a walk of stored edges from the given node: no deeper than
  -- `max_depth`, through the nodes of its path, with its strength the rounded product along it,
  -- which never falls below the minimum.
  pub dependents_sound :
      (bounds : Bounds host) (id : String) (now : Time) (db : Tables host) (hits : List (Hit host))
      → dependents host bounds id now db ≡ some (ok hits)
      → ((h : Hit host) → In h hits → IsReached host bounds (edges_into bounds now db) id h)
        × (length hits ≤ bounds.max_nodes)
        × ((node : String) → hits_of node hits ≤ 1)
  dependents_sound bounds id now db hits h = elim (dependents-cases bounds id now db hits h) [
    | inl nothing ↦ (
      (λ x i. absurd (subst (In x) nothing i)),
      rw nothing (omega arith),
      (λ node. rw nothing (omega arith)),
    )
    | inr (t, ended, sorted) ↦
        let sound =
          traverse-IsSound host bounds (edges_into bounds now db) id
            (rounds (length db.edges) bounds.max_depth) (start host bounds id) t
            (start-IsSound bounds (edges_into bounds now db) id) ended in
        (
          (λ x i.
              let (y, j, same) = In-sort_hits t.best x (subst (In x) (sym sorted) i) in
              subst (IsReached host bounds (edges_into bounds now db) id) (sym same)
                (sound.1 y j).1),
          omega (arith, ap length sorted, length-sort_hits t.best, sound.2),
          (λ node. omega (
            arith,
            ap (hits_of node) sorted,
            hits_of-sort_hits t.best node (λ x i. (sound.1 x i).0),
            sound.3 node,
          )),
        )
  ]
