-- ===== src/Evidence/Grading/Steps.antt =====
-- What each cap of `grade_evidence` does to the grade.
use causal_continuity_engine.Prelude.{
  ℕ, ◌≤◌, String, Bool, true, false, not, ◌&&◌, string_eq, List, [], ◌∷◌, Option, none, some, all,
  filter, is_empty, contains, ◌≡◌, refl, ◌↔◌, arith,
}
use causal_continuity_engine.Evidence.Probe.{MutationReport, bound}
use causal_continuity_engine.Evidence.Grading.{
  Grade, a, b, c, d, f, index, Outcome, Controls, Probes, Cap, EvidenceGrade, is_text, by_name,
  fault, first_fault, cap, cap_if, cap_unpinned, cap_unbound, cap_controls, cap_unprobed,
  cap_determinism, unpinned, unstable, unprobed, unbound, detail, has_status, is_missing_probe,
  is_unstable, with_reason,
}

-- the grade as a number, 0 for the best
abbrev pub rank : EvidenceGrade → ℕ
rank g = index g.grade

pub a_iff : (x : Grade) → (x ≡ a) ↔ (index x ≡ 0)
unfolding index
a_iff x = ground arith

pub f_iff : (x : Grade) → (x ≡ f) ↔ (index x ≡ 4)
unfolding index
f_iff x = ground arith

cap_if_zero :
    (t : Bool) (at : Grade) (why : Cap) (g : EvidenceGrade)
    → 1 ≤ index at
    → (rank (cap_if t at why g) ≡ 0) ↔ ((t ≡ false) × (rank g ≡ 0))
unfolding cap
cap_if_zero true at why g h = ground arith
cap_if_zero false at why g h = ground arith

pub cap_if_bound :
    (t : Bool) (at : Grade) (why : Cap) (g : EvidenceGrade)
    → index at ≤ 3
    → rank g ≤ 3
    → rank (cap_if t at why g) ≤ 3
unfolding cap
cap_if_bound true at why g h k = ground arith
cap_if_bound false at why g h k = k

pub cap_unpinned_zero :
    (loose names : List String) (g : EvidenceGrade)
    → (rank (cap_unpinned loose names g) ≡ 0)
      ↔ ((all (λ n. not (contains loose n)) names ≡ true) × (rank g ≡ 0))
unfolding cap_unpinned index
cap_unpinned_zero loose [] g = ground arith
cap_unpinned_zero loose (n ∷ names) g = ground (
  arith,
  cap_unpinned_zero loose names (cap_if (contains loose n) d (unpinned n) g),
  cap_if_zero (contains loose n) d (unpinned n) g (omega arith),
)

pub cap_unpinned_bound :
    (loose names : List String) (g : EvidenceGrade)
    → rank g ≤ 3
    → rank (cap_unpinned loose names g) ≤ 3
unfolding cap_unpinned index
cap_unpinned_bound loose [] g h = h
cap_unpinned_bound loose (n ∷ names) g h =
    cap_unpinned_bound loose names (cap_if (contains loose n) d (unpinned n) g)
      (cap_if_bound (contains loose n) d (unpinned n) g (omega arith) h)

filter_none :
    (p q : String → Bool) (names : List String)
    → ((n : String) → not (p n) ≡ q n)
    → is_empty (filter p names) ≡ all q names
filter_none p q [] h = refl
filter_none p q (n ∷ names) h = ground (arith, h n, filter_none p q names h)

cap_filtered_zero :
    (p q : String → Bool) (names : List String) (at : Grade) (why : Cap) (g : EvidenceGrade)
    → ((n : String) → not (p n) ≡ q n)
    → 1 ≤ index at
    → (rank (cap_if (not (is_empty (filter p names))) at why g) ≡ 0)
      ↔ ((all q names ≡ true) × (rank g ≡ 0))
cap_filtered_zero p q names at why g same h =
    ground
      (arith, filter_none p q names same, cap_if_zero (not (is_empty (filter p names))) at why g h)

-- a check that CCE ran and that passed
abbrev pub is_executed : List Outcome → String → Bool
is_executed outcomes n = elim (by_name outcomes n) [
  | none ↦ false
  | some o ↦ is_text o.result "passed" && is_text o.source "executed"
]

fault-none :
    (o : Option Outcome) (n : String)
    → (fault o n ≡ none) ↔ (
        (elim o [
          | none ↦ false
          | some o ↦ is_text o.result "passed" && is_text o.source "executed"
        ])
        ≡ true)
fault-none none n = ground arith
fault-none (some o) n = ground arith

pub first_fault-none :
    (outcomes : List Outcome) (names : List String)
    → (first_fault outcomes names ≡ none) ↔ (all (is_executed outcomes) names ≡ true)
unfolding first_fault
first_fault-none outcomes [] = ground arith
first_fault-none outcomes (n ∷ names) =
    ground (arith, fault-none (by_name outcomes n) n, first_fault-none outcomes names)

pub with_reason-grade : (g : EvidenceGrade) → (with_reason g).grade ≡ g.grade
with_reason-grade g = ground arith

-- what the top grade asks of the mutation report and of a check
abbrev pub is_bound : Option MutationReport → Bool
is_bound none = false
is_bound (some m) = bound m

abbrev pub is_steady : Probes → String → Bool
is_steady determinism n = not (is_missing_probe determinism n) && not (is_unstable determinism n)

not-not : (t : Bool) → not (not t) ≡ t
not-not t = ground arith

controls_zero :
    (controls : Controls) (required : List String) (g : EvidenceGrade)
    → (rank (cap_controls controls required g) ≡ 0)
      ↔ ((all (has_status "held" controls) required ≡ true) × (rank g ≡ 0))
unfolding index
controls_zero controls required g =
    cap_filtered_zero (λ n. not (has_status "held" controls n)) (has_status "held" controls)
      required c _ g (λ n. not-not _) (omega arith)

pub mutation_zero :
    (mutation : Option MutationReport) (controls : Controls) (required : List String)
    (g : EvidenceGrade)
    → (rank (cap_unprobed mutation (cap_controls controls required (cap_unbound mutation g))) ≡ 0)
      ↔ ((is_bound mutation ≡ true)
          × (all (has_status "held" controls) required ≡ true)
          × (rank g ≡ 0))
unfolding index cap
mutation_zero none controls required g = ground arith
mutation_zero (some m) controls required g = ground (
  arith,
  controls_zero controls required (cap_if (not (bound m)) d (unbound (detail m)) g),
  cap_if_zero (not (bound m)) d (unbound (detail m)) g (omega arith),
)

pub determinism_zero :
    (determinism : Probes) (required : List String) (g : EvidenceGrade)
    → (rank (cap_determinism determinism required g) ≡ 0) ↔ (
        (all (λ n. not (is_missing_probe determinism n)) required ≡ true)
        × (all (λ n. not (is_unstable determinism n)) required ≡ true)
        × (rank g ≡ 0))
unfolding index
determinism_zero determinism required g =
    let inner =
      cap_filtered_zero (is_unstable determinism) (λ n. not (is_unstable determinism n)) required c
        (unstable (filter (is_unstable determinism) required)) g (λ n. refl) (omega arith) in
    let outer =
      cap_filtered_zero (is_missing_probe determinism) (λ n. not (is_missing_probe determinism n))
        required b (unprobed (filter (is_missing_probe determinism) required))
        (cap_if (not (is_empty (filter (is_unstable determinism) required))) c
          (unstable (filter (is_unstable determinism) required)) g)
        (λ n. refl) (omega arith) in
    (
      λ h. (let k = outer.0 h in (k.0, (inner.0 k.1).0, (inner.0 k.1).1)),
      λ h. outer.1 (h.0, inner.1 (h.1, h.2)),
    )
