-- ===== src/Graph/Traverse/Ends.antt =====
-- The traversal of graph.py ends: every round takes an entry and adds only deeper ones.
use causal_continuity_engine.Graph.Traverse.Relaxed.{relax-cases, traverse_round}
use native.Mathlib.Nat.{le_refl, mul-le-mul}
use causal_continuity_engine.Prelude.{
  ℕ, zero, suc, ◌+◌, ◌-◌, ◌*◌, ◌≤◌, ◌<◌, String, leb, List, [], ◌∷◌, ◌++◌, Option, none, some,
  length, Result, ok, err, ◌>>=◌, >>=-eq-ok, ◌≡◌, ◌≢◌, refl, ap, ◌∙◌, arith, Bool-cases, inl, inr,
  string_eq, List-cases, Result-cases, subst, sym, map, length-filter_le,
}
use causal_continuity_engine.Graph.Rows.{Host, EdgeRow, Tables}
use causal_continuity_engine.Graph.Adjacent.{in_edges, inwards, is_edge_for, selected_edges}
use causal_continuity_engine.Graph.Edges.Ended.{edges_for-selected}
use causal_continuity_engine.Graph.Traverse.{
  Search, Visit, Bounds, relax, relax_all, visit, traverse, start, rounds, dependents, entry,
  sorted_answer,
}

module _ (host : Host) (bounds : Bounds host) (width : ℕ) where
  open host use {times}
  open bounds use {max_depth}

  -- the rounds that the frontier can still cause
  unfoldable pub work : List (Visit host) → ℕ
  work [] = 0
  work (e ∷ rest) = rounds width (max_depth - e.depth) + work rest

  work-append :
      (xs : List (Visit host)) (e : Visit host)
      → work (xs ++ e ∷ []) ≡ work xs + rounds width (max_depth - e.depth)
  unfolding work
  work-append [] e = omega arith
  work-append (x ∷ xs) e = omega (arith, work-append xs e)

  work-relax :
      (e : Visit host) (edge : EdgeRow host) (s t : Search host)
      → relax host bounds e edge s ≡ ok t
      → work t.frontier ≤ work s.frontier + rounds width (max_depth - suc e.depth)
  work-relax e edge s t h = elim (relax-cases host bounds e edge s t h) [
    | inl same ↦ rw same (omega arith)
    | inr found ↦ rw found.recorded (
        omega (
          arith,
          work-append s.frontier
              (entry host bounds e edge (times (times e.strength found.weight) edge.strength)),
        ))
  ]

  work-relax_all :
      (e : Visit host) (edges : List (EdgeRow host)) (s t : Search host)
      → relax_all host bounds e edges s ≡ ok t
      → work t.frontier ≤ work s.frontier + length edges * rounds width (max_depth - suc e.depth)
  unfolding relax_all
  work-relax_all e [] s t h = ground arith
  work-relax_all e (edge ∷ edges) s t h =
      let (u, first, rest) =
        >>=-eq-ok (relax host bounds e edge s) (λ u. relax_all host bounds e edges u) h in
      grind (arith, work-relax e edge s u first, work-relax_all e edges u t rest)

  rounds_pos : (k : ℕ) → 1 ≤ rounds width k
  unfolding rounds
  rounds_pos zero = omega arith
  rounds_pos (suc k) = omega arith

  rounds-suc : (k : ℕ) → rounds width (suc k) ≡ suc (width * rounds width k)
  unfolding rounds
  rounds-suc k = refl

  rounds_deeper :
      (d : ℕ)
      → d < max_depth
      → rounds width (max_depth - d) ≡ suc (width * rounds width (max_depth - suc d))
  rounds_deeper d h =
      let e : max_depth - d ≡ suc (max_depth - suc d) = omega arith in
      ap (rounds width) e ∙ rounds-suc (max_depth - suc d)

  -- a round shortens the work
  work-visit :
      (edges_into : String → Result (List (EdgeRow host))) (e : Visit host) (s t : Search host)
      → ((id : String) (edges : List (EdgeRow host))
          → edges_into id ≡ ok edges
          → length edges ≤ width)
      → visit host bounds edges_into e s ≡ ok t
      → work t.frontier < rounds width (max_depth - e.depth) + work s.frontier
  unfolding visit
  work-visit edges_into e s t narrow h = elim (Bool-cases (leb max_depth e.depth)) [
    | inl deep ↦
        let same : t ≡ s = ground arith in rw same (omega (arith, rounds_pos (max_depth - e.depth)))
    | inr shallow ↦
        let opened : (edges_into e.current >>= λ es. relax_all host bounds e es s) ≡ ok t =
          rw shallow at h in
        let (edges, read, relaxed) =
          >>=-eq-ok (edges_into e.current) (λ es. relax_all host bounds e es s) opened in
        let grown = work-relax_all e edges s t relaxed in
        let below : e.depth < max_depth = ground arith in
        let room =
          mul-le-mul (narrow e.current edges read)
            (le_refl (rounds width (max_depth - suc e.depth))) in
        omega (arith, rounds_deeper e.depth below, grown, room)
  ]

  frontier_cons :
      (e : Visit host) (rest : List (Visit host)) (fuel : ℕ)
      → work (e ∷ rest) ≤ suc fuel
      → (t : Search host) → work t.frontier < rounds width (max_depth - e.depth) + work rest
      → work t.frontier ≤ fuel
  unfolding work
  frontier_cons e rest fuel h t k = omega arith

  work_cons : (e : Visit host) (rest : List (Visit host)) → 1 ≤ work (e ∷ rest)
  unfolding work
  work_cons e rest = omega (arith, rounds_pos (max_depth - e.depth))

  -- the loop ends within as many rounds as the frontier's work
  pub traverse_ends :
      (edges_into : String → Result (List (EdgeRow host))) (fuel : ℕ) (s : Search host)
      → ((id : String) (edges : List (EdgeRow host))
          → edges_into id ≡ ok edges
          → length edges ≤ width)
      → work s.frontier ≤ fuel
      → traverse host bounds edges_into fuel s ≢ none
  unfolding traverse
  traverse_ends edges_into zero s narrow h stuck = elim (List-cases s.frontier) [
    | inl e ↦ absurd (ground arith)
    | inr (e, rest, same) ↦ absurd (omega (arith, work_cons e rest, ap work same))
  ]
  traverse_ends edges_into (suc fuel) s narrow h stuck = elim (List-cases s.frontier) [
    | inl e ↦ absurd (ground arith)
    | inr (e, rest, same) ↦
        elim (Result-cases (visit host bounds edges_into e (record s { frontier = rest }))) [
          | inl (x, failed) ↦ absurd (ground arith)
          | inr (t, moved) ↦
              traverse_ends edges_into fuel t narrow
                (frontier_cons e rest fuel (subst (λ l. work l ≤ suc fuel) same h) t
                  (work-visit edges_into e (record s { frontier = rest }) t narrow moved))
                (sym (traverse_round host bounds edges_into fuel s t e rest same moved) ∙ stuck)
        ]
  ]

module _ (host : Host) where
  open host use {Time, Float}

  selected_edges_narrow :
      (id : String) (kinds : Option (List String)) (now : Time) (db : Tables host)
      (anchor : Option (String × String))
      → length (selected_edges host (inwards host) id kinds now db anchor) ≤ length db.edges
  selected_edges_narrow id kinds now db none = omega arith
  selected_edges_narrow id kinds now db (some scope) =
      length-filter_le (is_edge_for host (inwards host) id scope kinds now db) db.edges

  -- a node has no more edges than there are
  in_edges_narrow :
      (id : String) (kinds : Option (List String)) (now : Time) (db : Tables host)
      (rows : List (EdgeRow host))
      → in_edges host id kinds none now db ≡ ok rows
      → length rows ≤ length db.edges
  in_edges_narrow id kinds now db rows h =
      let (anchor, e) = edges_for-selected host (inwards host) id kinds none now db rows h in
      subst (λ l. length l ≤ length db.edges) (sym e) (selected_edges_narrow id kinds now db anchor)

  answered : (x : Option (Result (Search host))) → x ≢ none → sorted_answer host x ≢ none
  answered none h e = absurd (h refl)
  answered (some (ok found)) h e = ground arith
  answered (some (err x)) h e = ground arith

  work-start :
      (bounds : Bounds host) (width : ℕ) (id : String)
      → work host bounds width (start host bounds id).frontier ≤ rounds width bounds.max_depth
  unfolding work
  work-start bounds width id =
      let undug : bounds.max_depth - 0 ≡ bounds.max_depth = omega arith in
      omega (arith, ap (rounds width) undug)

  -- The traversal ends, whatever the graph, cycles included: with fuel for as many rounds as a tree
  -- of the stored edges of the depth asked for has nodes, `dependents` returns or raises.
  pub dependents_ends :
      (bounds : Bounds host) (id : String) (now : Time) (db : Tables host)
      → dependents host bounds id now db ≢ none
  unfolding dependents
  dependents_ends bounds id now db stuck =
      let kinds = some (map (λ (w : String × Float). w.0) bounds.weights) in
      let ends =
        answered
          (traverse host bounds (λ x. in_edges host x kinds none now db)
            (rounds (length db.edges) bounds.max_depth) (start host bounds id))
          (traverse_ends host bounds (length db.edges) (λ x. in_edges host x kinds none now db)
            (rounds (length db.edges) bounds.max_depth) (start host bounds id)
            (λ x edges read. in_edges_narrow x kinds now db edges read)
            (work-start bounds (length db.edges) id)) in
      ground arith
