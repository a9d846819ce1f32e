-- ===== src/Graph/Traverse/Walks.antt =====
-- The hits of graph.py's `dependents` are ends of walks along the edges it reads.
use causal_continuity_engine.Prelude.{
  ℕ, suc, ◌≤◌, ◌<◌, String, false, leb, zero, List, [], ◌∷◌, ◌++◌, some, length, lookup, In,
  In-append, Result, ok, ◌>>=◌, >>=-eq-ok, ◌≡◌, refl, sym, ◌∙◌, subst, arith, Bool-cases, inl, inr,
  string_eq, List-cases, Result-cases, In-insert, with_key, with_key-insert,
}
use causal_continuity_engine.Graph.Rows.{Host, EdgeRow}
use causal_continuity_engine.Graph.Traverse.{
  Search, Visit, Bounds, Hit, relax, relax_all, visit, traverse, entry, hit, record_hit,
}
use causal_continuity_engine.Graph.Traverse.Relaxed.{relax-cases, traverse_round}

module _ (host : Host) (bounds : Bounds host) (edges_into : String → Result (List (EdgeRow host)))
    (origin : String) where
  open host use {Float, lt, times, tenths, rounded}
  open bounds use {max_depth, max_nodes, weights, min_strength}

  -- A walk against the edges from `origin`: how many edges it has, where it ends, the product of
  -- the strengths and weights along it, which stays at the minimum or above, and its nodes.
  pub data Walk : ℕ → String → Float → List String → Type 0 where
    at_origin : Walk 0 origin (tenths 10) (origin ∷ [])
    along :
        (d : ℕ) (node : String) (strength weight : Float) (path : List String)
        (edges : List (EdgeRow host)) (edge : EdgeRow host)
        → Walk d node strength path
        → edges_into node ≡ ok edges
        → In edge edges
        → lookup edge.edge_type weights ≡ some weight
        → lt (times (times strength weight) edge.strength) min_strength ≡ false
        → Walk
            (suc d)
            edge.src_id
            (times (times strength weight) edge.strength)
            (path ++ edge.src_id ∷ [])

  -- the hit is the end of a walk no deeper than asked for
  abbrev pub IsReached : Hit host → Type 0
  IsReached h =
      (s : Float) × Walk h.depth h.node_id s h.path
      × (h.strength ≡ rounded s)
      × (h.depth ≤ max_depth)

  -- the entry is the end of a walk
  abbrev IsWalked : Visit host → Type 0
  IsWalked e = Walk e.depth e.current e.strength e.path × (e.depth ≤ max_depth)

  -- what every round keeps
  abbrev pub IsSound : Search host → Type 0
  IsSound s =
      ((e : Visit host) → In e s.frontier → IsWalked e)
      × ((x : String × Hit host) → In x s.best → (x.0 ≡ x.1.node_id) × IsReached x.1)
      × (length s.best ≤ max_nodes)
      × ((id : String) → with_key id s.best ≤ 1)

  relax-IsSound :
      (e : Visit host) (edges : List (EdgeRow host)) (edge : EdgeRow host) (s t : Search host)
      → IsWalked e
      → e.depth < max_depth
      → edges_into e.current ≡ ok edges
      → In edge edges
      → IsSound s
      → relax host bounds e edge s ≡ ok t
      → IsSound t
  relax-IsSound e edges edge s t walked shallow read i sound h =
      elim (relax-cases host bounds e edge s t h) [
        | inl same ↦ subst IsSound (sym same) sound
        | inr found ↦
            let x = times (times e.strength found.weight) edge.strength in
            let walk =
              along e.depth e.current e.strength found.weight e.path edges edge walked.0 read i
                found.weighted found.strong in
            let recorded : IsSound (record_hit host bounds e edge x s) = (
              (λ e' j. elim (In-append s.frontier (entry host bounds e edge x ∷ []) e' j) [
                | inl old ↦ sound.0 e' old
                | inr (inl new) ↦ subst IsWalked (sym new) (walk, shallow)
                | inr (inr nowhere) ↦ absurd nowhere
              ]),
              (λ y j. elim (In-insert edge.src_id (hit host bounds e edge x) s.best y j) [
                | inl new ↦
                    subst (λ (z : String × Hit host). (z.0 ≡ z.1.node_id) × IsReached z.1) (sym new)
                      (refl, (x, walk, refl, shallow))
                | inr old ↦ sound.1 y old
              ]),
              subst (λ u. length u.best ≤ max_nodes) found.recorded found.within,
              (λ id. with_key-insert edge.src_id id (hit host bounds e edge x) s.best (sound.3 id)),
            ) in
            subst IsSound (sym found.recorded) recorded
      ]

  relax_all-IsSound :
      (e : Visit host) (edges later : List (EdgeRow host)) (s t : Search host)
      → IsWalked e
      → e.depth < max_depth
      → edges_into e.current ≡ ok edges
      → ((edge : EdgeRow host) → In edge later → In edge edges)
      → IsSound s
      → relax_all host bounds e later s ≡ ok t
      → IsSound t
  unfolding relax_all
  relax_all-IsSound e edges [] s t walked shallow read sub sound h =
      let same : t ≡ s = ground arith in subst IsSound (sym same) sound
  relax_all-IsSound e edges (edge ∷ later) s t walked shallow read sub sound h =
      let (u, first, rest) =
        >>=-eq-ok (relax host bounds e edge s) (λ u. relax_all host bounds e later u) h in
      relax_all-IsSound e edges later u t walked shallow read (λ x i. sub x (inr i))
        (relax-IsSound e edges edge s u walked shallow read (sub edge (inl refl)) sound first) rest

  visit-IsSound :
      (e : Visit host) (s t : Search host)
      → IsWalked e
      → IsSound s
      → visit host bounds edges_into e s ≡ ok t
      → IsSound t
  unfolding visit
  visit-IsSound e s t walked sound h = elim (Bool-cases (leb max_depth e.depth)) [
    | inl deep ↦ let same : t ≡ s = ground arith in subst IsSound (sym same) sound
    | inr shallow ↦
        let opened : (edges_into e.current >>= λ es. relax_all host bounds e es s) ≡ ok t =
          rw shallow at h in
        let (edges, read, relaxed) =
          >>=-eq-ok (edges_into e.current) (λ es. relax_all host bounds e es s) opened in
        relax_all-IsSound e edges edges s t walked (ground arith) read (λ x i. i) sound relaxed
  ]

  -- the answer of the loop is sound
  pub traverse-IsSound :
      (fuel : ℕ) (s t : Search host)
      → IsSound s
      → traverse host bounds edges_into fuel s ≡ some (ok t)
      → IsSound t
  unfolding traverse
  traverse-IsSound zero s t sound h = elim (List-cases s.frontier) [
    | inl e ↦ let same : t ≡ s = ground arith in subst IsSound (sym same) sound
    | inr (e, rest, same) ↦ absurd (ground arith)
  ]
  traverse-IsSound (suc fuel) s t sound h = elim (List-cases s.frontier) [
    | inl e ↦ let same : t ≡ s = ground arith in subst IsSound (sym same) sound
    | inr (e, rest, same) ↦
        elim (Result-cases (visit host bounds edges_into e (record s { frontier = rest }))) [
          | inl (x, failed) ↦ absurd (ground arith)
          | inr (u, moved) ↦
              traverse-IsSound fuel u t
                (visit-IsSound e (record s { frontier = rest }) u
                  (sound.0 e (subst (In e) (sym same) (inl refl)))
                  ((λ x i. sound.0 x (subst (In x) (sym same) (inr i))), sound.1, sound.2, sound.3)
                  moved)
                (sym (traverse_round host bounds edges_into fuel s u e rest same moved) ∙ h)
        ]
  ]
