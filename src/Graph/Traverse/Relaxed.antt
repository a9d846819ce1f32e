-- ===== src/Graph/Traverse/Relaxed.antt =====
-- What the inner loop's body of `dependents` does to the search, in graph.py.
use causal_continuity_engine.Graph.Traverse.{
  Search, Visit, Bounds, relax, record_hit, is_weaker, visit, traverse,
}
use causal_continuity_engine.Graph.Rows.{Host, EdgeRow}
use causal_continuity_engine.Prelude.{
  ℕ, ◌≤◌, String, Bool, true, false, ◌||◌, ltb, if◌then◌else◌, List, some, length, lookup,
  traversal_budget_exceeded, ◌⊎◌, Result, ok, err, ◌≡◌, refl, arith, Option-cases, inl, inr, suc,
  ◌∷◌, string_eq,
}

module _ (host : Host) (bounds : Bounds host) where
  open host use {Float, lt, times}
  open bounds use {max_nodes, weights, min_strength}

  -- the body recorded a hit, of the strength `reached`
  pub record Recorded (e : Visit host) (edge : EdgeRow host) (s t : Search host) : Type 0 where
    pub weight : Float
    pub weighted : lookup edge.edge_type weights ≡ some weight
    pub strong : lt (times (times e.strength weight) edge.strength) min_strength ≡ false
    pub recorded :
        t ≡ record_hit host bounds e edge (times (times e.strength weight) edge.strength) s
    pub within : length t.best ≤ max_nodes

  relaxed :
      (e : Visit host) (edge : EdgeRow host) (s t : Search host) (weak known over : Bool)
      (x : Float)
      → (if weak || known
          then ok s
          else if over
          then err traversal_budget_exceeded
          else ok (record_hit host bounds e edge x s))
        ≡ ok t
      → (t ≡ s) ⊎ ((weak ≡ false) × (over ≡ false) × (t ≡ record_hit host bounds e edge x s))
  relaxed e edge s t true known over x h = inl (ground arith)
  relaxed e edge s t false true over x h = inl (ground arith)
  relaxed e edge s t false false true x h = absurd (ground arith)
  relaxed e edge s t false false false x h = inr (refl, refl, ground arith)

  -- the loop's body skips the edge, or records a hit within the budget
  pub relax-cases :
      (e : Visit host) (edge : EdgeRow host) (s t : Search host)
      → relax host bounds e edge s ≡ ok t
      → (t ≡ s) ⊎ Recorded e edge s t
  unfolding relax
  relax-cases e edge s t h = elim (Option-cases (lookup edge.edge_type weights)) [
    | inl e' ↦ absurd (ground arith)
    | inr (w, e') ↦
        let x = times (times e.strength w) edge.strength in
        elim (relaxed e edge s t (lt x min_strength) (is_weaker host bounds edge.src_id x s.seen)
          (ltb max_nodes (length (record_hit host bounds e edge x s).best)) x (ground arith)) [
            | inl same ↦ inl same
            | inr (strong, within, recorded) ↦ inr (record {
              weight = w;
              weighted = e';
              strong = strong;
              recorded = recorded;
              within = rw recorded (ground arith);
            })
          ]
  ]

  -- a round of the `while` loop
  pub traverse_round :
      (edges_into : String → Result (List (EdgeRow host))) (fuel : ℕ) (s t : Search host)
      (e : Visit host) (rest : List (Visit host))
      → s.frontier ≡ e ∷ rest
      → visit host bounds edges_into e (record s { frontier = rest }) ≡ ok t
      → traverse host bounds edges_into (suc fuel) s ≡ traverse host bounds edges_into fuel t
  unfolding traverse
  traverse_round edges_into fuel s t e rest same moved = cc
