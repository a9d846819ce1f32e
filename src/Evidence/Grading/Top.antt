-- ===== src/Evidence/Grading/Top.antt =====
-- What the top grade and the bottom grade of `grade_evidence` of evidence.py say.
use causal_continuity_engine.Prelude.{
  ◌≤◌, String, Bool, true, false, not, ◌&&◌, ◌||◌, List, [], Option, none, some, all, is_empty,
  contains, ok, ◌≡◌, refl, ◌↔◌, ◌⊎◌, arith,
}
use causal_continuity_engine.Prelude.{string_eq}
use causal_continuity_engine.Evidence.Probe.{MutationReport}
use causal_continuity_engine.Evidence.Grading.{
  a, d, f, index, Outcome, Controls, Probes, EvidenceGrade, cap, cap_unpinned, cap_unbound,
  cap_controls, cap_unprobed, cap_determinism, capped_grade, has_status, is_missing_probe,
  is_unstable, grade_accepted, grade_evidence,
}
use causal_continuity_engine.Evidence.Grading.Steps.{
  rank, a_iff, f_iff, cap_if_bound, cap_unpinned_zero, cap_unpinned_bound, mutation_zero,
  determinism_zero, first_fault-none, with_reason-grade, is_executed, is_bound,
}

start : EvidenceGrade
start = record { grade = a; reasons = []; caps = [] }

-- a check with a stable determinism probe
abbrev pub is_stable_check : Probes → String → Bool
is_stable_check determinism n =
    not (is_missing_probe determinism n) && not (is_unstable determinism n)

module _ (required : List String) (controls : Controls) (mutation : Option MutationReport)
    (determinism : Probes) (unpinned : List String) where
  capped_grade_zero : (rank (capped_grade required controls mutation determinism unpinned) ≡ 0) ↔ (
      (all (λ n. not (contains unpinned n)) required ≡ true)
      × (is_bound mutation ≡ true)
      × (all (has_status "held" controls) required ≡ true)
      × (all (λ n. not (is_missing_probe determinism n)) required ≡ true)
      × (all (λ n. not (is_unstable determinism n)) required ≡ true))
  unfolding capped_grade start index
  capped_grade_zero =
      let m = cap_unpinned unpinned required start in
      let p = cap_unprobed mutation (cap_controls controls required (cap_unbound mutation m)) in
      let first = cap_unpinned_zero unpinned required start in
      let second = mutation_zero mutation controls required m in
      let third = determinism_zero determinism required p in
      (
        λ h.
            (let (dm, du, e) = third.0 h in
              let (bm, ch, k) = second.0 e in ((first.0 k).0, bm, ch, dm, du)),
        λ (u, bm, ch, dm, du). third.1 (dm, du, second.1 (bm, ch, first.1 (u, refl))),
      )

  determinism_bound :
      (g : EvidenceGrade) → rank g ≤ 3 → rank (cap_determinism determinism required g) ≤ 3
  unfolding index cap
  determinism_bound g h = ground arith

  unprobed_bound :
      (o : Option MutationReport) (g : EvidenceGrade) → rank g ≤ 3 → rank (cap_unprobed o g) ≤ 3
  unfolding index cap
  unprobed_bound none g h = ground arith
  unprobed_bound (some m) g h = h

  unbound_bound :
      (o : Option MutationReport) (g : EvidenceGrade) → rank g ≤ 3 → rank (cap_unbound o g) ≤ 3
  unfolding index
  unbound_bound none g h = h
  unbound_bound (some m) g h = cap_if_bound _ d _ g (omega arith) h

  controls_bound : (g : EvidenceGrade) → rank g ≤ 3 → rank (cap_controls controls required g) ≤ 3
  unfolding index cap
  controls_bound g h = ground arith

  capped_grade_bound : rank (capped_grade required controls mutation determinism unpinned) ≤ 3
  unfolding capped_grade start index
  capped_grade_bound = determinism_bound _ (
      unprobed_bound mutation _ (
        controls_bound _
          (unbound_bound mutation _ (cap_unpinned_bound unpinned required start (omega arith)))))

  module _ (outcomes : List Outcome) where
    -- the grade of accepted arguments, by the two tests that come before the caps
    accepted_cases :
        (((is_empty required || not (all (is_executed outcomes) required)) ≡ true)
          × ((grade_accepted outcomes required controls mutation determinism unpinned).grade ≡ f))
        ⊎ ((is_empty required ≡ false)
            × (all (is_executed outcomes) required ≡ true)
            × ((grade_accepted outcomes required controls mutation determinism unpinned).grade
                ≡ (capped_grade required controls mutation determinism unpinned).grade))
    unfolding grade_accepted
    accepted_cases = ground (
      arith,
      first_fault-none outcomes required,
      with_reason-grade (capped_grade required controls mutation determinism unpinned),
    )

    grade_evidence-accepted :
        (g : EvidenceGrade)
        → grade_evidence outcomes required controls mutation determinism unpinned ≡ ok g
        → g ≡ grade_accepted outcomes required controls mutation determinism unpinned
    unfolding grade_evidence
    grade_evidence-accepted g h = ground arith

    -- `grade_evidence` gives the grade A exactly when there are required checks, each of them was run
    -- by CCE and passed, under a pinned command, with a negative control that held and a determinism
    -- probe of two passes, and the deliverables are bound to the checks by a mutation probe.
    pub grade_evidence-top :
        (g : EvidenceGrade)
        → grade_evidence outcomes required controls mutation determinism unpinned ≡ ok g
        → (g.grade ≡ a) ↔ (
            (is_empty required ≡ false)
            × (all (is_executed outcomes) required ≡ true)
            × (all (λ n. not (contains unpinned n)) required ≡ true)
            × (is_bound mutation ≡ true)
            × (all (has_status "held" controls) required ≡ true)
            × (all (λ n. not (is_missing_probe determinism n)) required ≡ true)
            × (all (λ n. not (is_unstable determinism n)) required ≡ true))
    unfolding index
    grade_evidence-top g h = ground (
      arith,
      accepted_cases,
      grade_evidence-accepted g h,
      capped_grade_zero,
      a_iff g.grade,
      a_iff (capped_grade required controls mutation determinism unpinned).grade,
    )

    -- `grade_evidence` gives the grade F exactly when no check is required, or some required check was
    -- not run by CCE or did not pass; whatever the other arguments, accepted evidence has another grade.
    pub grade_evidence-bottom :
        (g : EvidenceGrade)
        → grade_evidence outcomes required controls mutation determinism unpinned ≡ ok g
        → (g.grade ≡ f)
          ↔ ((is_empty required ≡ true) ⊎ (all (is_executed outcomes) required ≡ false))
    unfolding index
    grade_evidence-bottom g h = ground (
      arith,
      accepted_cases,
      grade_evidence-accepted g h,
      capped_grade_bound,
      f_iff (capped_grade required controls mutation determinism unpinned).grade,
    )
