-- ===== src/Invalidation/Blocking/Reach.antt =====
-- Which nodes the search of invalidation.py's `blocking_invalidations` finds, and that no open
-- invalidation of one of them is passed over.
use causal_continuity_engine.Prelude.{
  ℕ, zero, suc, String, Bool, true, false, List, [], ◌∷◌, ◌++◌, map, some, In, contains,
  contains_complete, any, filter, string_eq, is_empty, ok, >>=-eq-ok, ◌≡◌, refl, ap, sym, ◌∙◌, ◌⊎◌,
  inl, inr, arith, subst, Bool-cases, Option-cases,
}
use causal_continuity_engine.Graph.Rows.{Host, NodeRow, EdgeRow, Tables}
use causal_continuity_engine.Invalidation.Packet.{Engine}
use causal_continuity_engine.Invalidation.Reached.{ok_injective}
use causal_continuity_engine.Invalidation.Settle.Stored.{Desk}
use causal_continuity_engine.Invalidation.Blocking.{
  Climb, climb, ascend, dependencies, ancestors_of, open_invalidations, touched, is_blocker,
  blocking_invalidations,
}
use causal_continuity_engine.Invalidation.Blocking.Ends.{
  known, exhausted, grown, added, climb-Round,
}

module _ (host : Host) (engine : Engine host) where
  open host use {Time}

  abbrev waiting : Climb → List String
  waiting s = map (λ (x : String × ℕ). x.0) s.frontier

  -- what the inner loop leaves, where it meets no bound
  record HasTaken (edges : List (EdgeRow host)) (s t : Climb) : Type 0 where
    takes : (e : EdgeRow host) → In e edges → In e.dst_id t.ancestors
    keeps : (id : String) → In id s.ancestors → In id t.ancestors
    waits : (id : String) → In id (waiting s) → In id (waiting t)
    queues : (id : String) → In id t.ancestors → In id s.ancestors ⊎ In id (waiting t)

  waiting-added :
      (depth : ℕ) (edge : EdgeRow host) (frontier : List (String × ℕ)) (id : String)
      → (id ≡ edge.dst_id) ⊎ In id (map (λ (x : String × ℕ). x.0) frontier)
      → In id (map (λ (x : String × ℕ). x.0) (frontier ++ (edge.dst_id, suc depth) ∷ []))
  waiting-added depth edge [] id (inl e) = inl e
  waiting-added depth edge [] id (inr i) = absurd i
  waiting-added depth edge (x ∷ rest) id (inl e) = inr (waiting-added depth edge rest id (inl e))
  waiting-added depth edge (x ∷ rest) id (inr (inl e)) = inl e
  waiting-added depth edge (x ∷ rest) id (inr (inr i)) =
      inr (waiting-added depth edge rest id (inr i))

  climb-HasTaken :
      (depth : ℕ) (edges : List (EdgeRow host)) (s t : Climb)
      → climb host engine depth edges s ≡ (false, t)
      → HasTaken edges s t
  unfolding climb
  climb-HasTaken depth [] s t h = subst (HasTaken [] s) (ap (λ (x : Bool × Climb). x.1) h) (record {
    takes = λ e i. absurd i;
    keeps = λ id i. i;
    waits = λ id i. i;
    queues = λ id i. inl i;
  })
  climb-HasTaken depth (edge ∷ rest) s t h =
      elim (climb-Round host engine depth edge rest s (false, t) h) [
        | known old next ↦
            let later = climb-HasTaken depth rest s t next in
            record {
              takes = λ e i. elim i [
                | inl here ↦
                    subst (λ (x : EdgeRow host). In x.dst_id t.ancestors) (sym here)
                      (later.keeps edge.dst_id old)
                | inr j ↦ later.takes e j
              ];
              keeps = later.keeps;
              waits = later.waits;
              queues = later.queues;
            }
        | exhausted full ↦ absurd (ground (arith, ap (λ (x : Bool × Climb). x.0) full))
        | grown room next ↦
            let later = climb-HasTaken depth rest (added host engine depth edge s) t next in
            record {
              takes = λ e i. elim i [
                | inl here ↦
                    subst (λ (x : EdgeRow host). In x.dst_id t.ancestors) (sym here)
                      (later.keeps edge.dst_id (inl refl))
                | inr j ↦ later.takes e j
              ];
              keeps = λ id i. later.keeps id (inr i);
              waits = λ id i. later.waits id (waiting-added depth edge s.frontier id (inr i));
              queues = λ id i. elim (later.queues id i) [
                | inl (inl e) ↦
                    inr (later.waits id (waiting-added depth edge s.frontier id (inl e)))
                | inl (inr j) ↦ inl j
                | inr j ↦ inr j
              ];
            }
      ]

  module _ (now : Time) (db : Tables host) where
    -- the ends of the node's edges are among the ancestors
    abbrev IsTaken : String → List String → Type 0
    IsTaken id ancestors =
        (edges : List (EdgeRow host))
        → dependencies host engine id now db ≡ ok edges
        → (e : EdgeRow host) → In e edges
        → In e.dst_id ancestors

    -- every ancestor waits in the frontier or was taken from it
    abbrev IsKept : List String → List (String × ℕ) → Type 0
    IsKept ancestors frontier =
        (id : String)
        → In id ancestors
        → In id (map (λ (x : String × ℕ). x.0) frontier) ⊎ IsTaken id ancestors

    IsKept-next :
        (ancestors : List String) (x : String × ℕ) (rest : List (String × ℕ))
        (edges : List (EdgeRow host)) (t : Climb)
        → dependencies host engine x.0 now db ≡ ok edges
        → HasTaken edges (record { ancestors = ancestors; frontier = rest }) t
        → IsKept ancestors (x ∷ rest)
        → IsKept t.ancestors t.frontier
    IsKept-next ancestors x rest edges t read step kept id i = elim (step.queues id i) [
      | inr waits ↦ inl waits
      | inl old ↦ elim (kept id old) [
        | inl (inl first) ↦ inr (λ l again e j. step.takes e (
            subst (In e)
              (ok_injective l edges
                (sym again ∙ (ap (λ k. dependencies host engine k now db) first ∙ read)))
              j))
        | inl (inr later) ↦ inl (step.waits id later)
        | inr taken ↦ inr (λ l again e j. step.keeps e.dst_id (taken l again e j))
      ]
    ]

    -- a complete search
    ascend-IsTaken :
        (fuel : ℕ) (ancestors found : List String) (frontier : List (String × ℕ))
        → IsKept ancestors frontier
        → ascend host engine fuel ancestors frontier now db ≡ ok (some (false, found))
        → ((id : String) → In id ancestors → In id found)
          × ((id : String) → In id found → IsTaken id found)
    unfolding ascend
    ascend-IsTaken fuel ancestors found [] kept h =
        let same : ancestors ≡ found = ground arith in
        (
          (λ id i. subst (In id) same i),
          (λ id i. elim (kept id (subst (In id) (sym same) i)) [
            | inl nowhere ↦ absurd nowhere
            | inr taken ↦ subst (IsTaken id) same taken
          ]),
        )
    ascend-IsTaken zero ancestors found (x ∷ rest) kept h = absurd (ground arith)
    ascend-IsTaken (suc fuel) ancestors found (x ∷ rest) kept h =
        let (edges, read, h1) = >>=-eq-ok (dependencies host engine x.0 now db) _ h in
        let s : Climb = record { ancestors = ancestors; frontier = rest } in
        let r = climb host engine x.1 edges s in
        elim (Bool-cases r.0) [
          | inl full ↦ absurd (ground (arith, full))
          | inr whole ↦
              let step = climb-HasTaken x.1 edges s r.1 (ap (λ b. (b, r.1)) whole) in
              let (more, closed) =
                ascend-IsTaken fuel r.1.ancestors found r.1.frontier
                  (IsKept-next ancestors x rest edges r.1 read step kept) (rw whole at h1) in
              ((λ id i. more id (step.keeps id i)), closed)
        ]

    -- The nodes that the candidate depends on, by the current propagation edges out of it.
    pub data IsAncestor (id : String) : String → Type 0 where
      itself : IsAncestor id id
      beyond :
          (node : String) (edges : List (EdgeRow host)) (edge : EdgeRow host)
          → IsAncestor id node
          → dependencies host engine node now db ≡ ok edges
          → In edge edges
          → IsAncestor id edge.dst_id

    found-IsAncestor :
        (id : String) (found : List String)
        → In id found
        → ((x : String) → In x found → IsTaken x found)
        → (a : String) → IsAncestor id a
        → In a found
    found-IsAncestor id found start closed a itself = start
    found-IsAncestor id found start closed a (beyond node edges edge walk read i) =
        closed node (found-IsAncestor id found start closed node walk) edges read edge i

  any-In :
      (l : List String) (ancestors : List String) (a : String)
      → In a l
      → In a ancestors
      → any (contains ancestors) l ≡ true
  any-In [] ancestors a i k = absurd i
  any-In (x ∷ l) ancestors a (inl here) k =
      rw (contains_complete ancestors x (subst (λ y. In y ancestors) here k)) refl
  any-In (x ∷ l) ancestors a (inr i) k =
      let later = any-In l ancestors a i k in ground (arith, later)

  In-kept :
      (p : NodeRow host → Bool) (l : List (NodeRow host)) (inv : NodeRow host)
      → In inv l
      → p inv ≡ true
      → In inv (filter p l)
  In-kept p [] inv i h = absurd i
  In-kept p (x ∷ l) inv (inl here) h = rw (ap p (sym here) ∙ h) (inl here)
  In-kept p (x ∷ l) inv (inr i) h =
      let later = In-kept p l inv i h in
      elim (Bool-cases (p x)) [ inl kept ↦ rw kept (inr later) | inr dropped ↦ rw dropped later ]

  not_empty : (l : List (NodeRow host)) (inv : NodeRow host) → In inv l → is_empty l ≡ false
  not_empty [] inv i = absurd i
  not_empty (x ∷ l) inv i = refl

  module _ (desk : Desk host) where
    touching-blocks :
        (id : String) (now : Time) (db : Tables host) (f : Bool × List String) (inv : NodeRow host)
        (a : String)
        → IsAncestor now db id a
        → In a (touched host engine desk inv)
        → ancestors_of host engine false id now db ≡ ok (some f)
        → is_blocker host engine desk f.0 f.1 inv ≡ true
    touching-blocks id now db (true, found) inv a walk touches h = refl
    touching-blocks id now db (false, found) inv a walk touches h =
        let (more, closed) =
          ascend-IsTaken now db (suc engine.max_nodes) (id ∷ []) found ((id, 0) ∷ []) (λ x i. inl i)
            h in
        let reached = found-IsAncestor now db id found (more id (inl refl)) closed a walk in
        rw (any-In (touched host engine desk inv) found a touches reached) refl

    -- No open invalidation is passed over: one whose target or whose affected nodes the candidate
    -- depends on, by any walk along the current propagation edges and through any cycles, is among
    -- those that `blocking_invalidations` returns, however the walk ended.
    pub blocking_complete :
        (project_id id : String) (now : Time) (db : Tables host)
        (listed blockers : List (NodeRow host)) (inv : NodeRow host) (a : String)
        → open_invalidations host engine project_id db ≡ ok listed
        → In inv listed
        → IsAncestor now db id a
        → In a (touched host engine desk inv)
        → blocking_invalidations host engine desk project_id id now db ≡ ok (some blockers)
        → In inv blockers
    unfolding blocking_invalidations
    blocking_complete project_id id now db listed blockers inv a opened i walk touches h =
        let (l, again, h1) = >>=-eq-ok (open_invalidations host engine project_id db) _ h in
        let same : l ≡ listed = ok_injective l listed (sym again ∙ opened) in
        let there : In inv l = subst (In inv) (sym same) i in
        let (found, searched, h2) =
          >>=-eq-ok (ancestors_of host engine (is_empty l) id now db) _ h1 in
        elim (Option-cases found) [
          | inl lost ↦ absurd (ground (arith, lost))
          | inr (f, got) ↦
              let all : filter (is_blocker host engine desk f.0 f.1) l ≡ blockers =
                (let last = rw got at h2 in ground (arith, last)) in
              let run : ancestors_of host engine false id now db ≡ ok (some f) =
                subst (λ b. ancestors_of host engine b id now db ≡ ok (some f))
                  (not_empty l inv there) (searched ∙ ap ok got) in
              subst (In inv) all (
                In-kept (is_blocker host engine desk f.0 f.1) l inv there
                  (touching-blocks id now db f inv a walk touches run))
        ]
