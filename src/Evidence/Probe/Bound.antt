-- ===== src/Evidence/Probe/Bound.antt =====
-- What a bound mutation report of evidence.py says of every declared artifact.
use text.Mathlib.TextEquality.{eq_iff}
use causal_continuity_engine.Prelude.{
  String, Bool, true, false, ◌==◌, string_eq, List, [], ◌∷◌, Option, none, some, all, In, insert,
  ◌≡◌, refl, ◌⊎◌, inl, inr, arith, Option-cases, Bool-cases,
}
use causal_continuity_engine.Proof.Status.{
  VerificationResult, passed, failed, skipped, missing, inconclusive, stale, is_result,
}
use causal_continuity_engine.Evidence.Probe.{
  Mutation, World, MutationReport, bound, run_baseline, probe_copies, run_mutation_probe, is_green,
  empty_report,
}
use causal_continuity_engine.Prelude.{All, ◌∙◌, ap, lookup, lookup-insert}
use causal_continuity_engine.Evidence.Probe.Loop.{Noticed, is_clean, unclean, probe_artifacts-clean}

passed_only : (v : VerificationResult) → is_result passed v ≡ true → v ≡ passed
passed_only passed h = refl
passed_only failed h = absurd (ground arith)
passed_only skipped h = absurd (ground arith)
passed_only missing h = absurd (ground arith)
passed_only inconclusive h = absurd (ground arith)
passed_only stale h = absurd (ground arith)

green_lookup :
    (seen : List (String × VerificationResult)) (k : String) (v : VerificationResult)
    → all is_green seen ≡ true
    → lookup k seen ≡ some v
    → v ≡ passed
green_lookup [] k v h e = absurd (ground arith)
green_lookup ((j, u) ∷ seen) k v h e =
    ground (arith, green_lookup seen k v, passed_only u, eq_iff k j)

-- what the baseline has of a check after one more run
found_after :
    (run : String → Option VerificationResult) (spec : String) (specs : List String)
    (seen : List (String × VerificationResult)) (k : String) (v : VerificationResult)
    → run spec ≡ some v
    → (In k (spec ∷ specs) ⊎ (lookup k seen ≡ run k))
    → (In k specs ⊎ (lookup k (insert spec v seen) ≡ run k))
found_after run spec specs seen k v e found = elim (Bool-cases (k == spec)) [
  | inl same ↦ inr (ground (arith, lookup-insert spec k v seen, eq_iff k spec))
  | inr other ↦ ground (arith, lookup-insert spec k v seen, eq_iff k spec)
]

-- a finished baseline has the run of every check
run_baseline-lookup :
    (run : String → Option VerificationResult) (specs : List String)
    (seen : List (String × VerificationResult)) (k : String)
    → (run_baseline run specs seen).1 ≡ true
    → (In k specs ⊎ (lookup k seen ≡ run k))
    → (lookup k (run_baseline run specs seen).0 ≡ run k)
      × (In k specs → (v : VerificationResult) × (run k ≡ some v))
unfolding run_baseline
run_baseline-lookup run [] seen k h found = (ground arith, λ i. absurd (ground arith))
run_baseline-lookup run (spec ∷ specs) seen k h found = elim (Option-cases (run spec)) [
  | inl e ↦ absurd (ground arith)
  | inr (v, e) ↦
      let rest =
        run_baseline-lookup run specs (insert spec v seen) k (ground arith)
          (found_after run spec specs seen k v e found) in
      (ground (arith, rest.0), λ i. elim i [ inl same ↦ (v, ap run same ∙ e) | inr l ↦ rest.1 l ])
]

-- The contrast that one destroyed artifact shows: a check that passed before and failed after.
pub record Contrast (w : World) (specs : List String) (a : String) (m : Mutation) : Type 0 where
  pub noticed_by : Noticed w specs a m
  pub green : w.baseline_run (noticed_by.by) ≡ some passed

baseline_green :
    (run : String → Option VerificationResult) (specs : List String) (k : String)
    → (run_baseline run specs []).1 ≡ true
    → all is_green (run_baseline run specs []).0 ≡ true
    → In k specs
    → run k ≡ some passed
baseline_green run specs k h green i =
    let (same, returned) = run_baseline-lookup run specs [] k h (inl i) in
    let (v, e) = returned i in
    let p = green_lookup (run_baseline run specs []).0 k v green (same ∙ e) in e ∙ ap some p

module _ (w : World) (specs : List String) where
  contrasts :
      (ms : List Mutation) (names : List String)
      → ((k : String) → In k specs → w.baseline_run k ≡ some passed)
      → All (λ a. All (λ m. Noticed w specs a m) ms) names
      → All (λ a. All (λ m. Contrast w specs a m) ms) names
  contrasts ms [] green h = tt
  contrasts ms (a ∷ names) green (here, later) = (each ms here, contrasts ms names green later)
    where
      each :
          (ms : List Mutation)
          → All (λ m. Noticed w specs a m) ms
          → All (λ m. Contrast w specs a m) ms
      each [] h = tt
      each (m ∷ ms) (n, h) = (record { noticed_by = n; green = green n.by n.listed }, each ms h)

  bound-is_clean : (r : MutationReport) → bound r ≡ true → (is_clean r ≡ true) × (r.error ≡ none)
  unfolding bound
  bound-is_clean r h = ground arith

  -- the report where the probe gets as far as the copies, and no report with an error otherwise
  copies_clean :
      (ms : List Mutation) (names : List String) (base : List (String × VerificationResult) × Bool)
      → (probe_copies w specs ms base (empty_report names)).error ≡ none
      → is_clean (probe_copies w specs ms base (empty_report names)) ≡ true
      → (base.1 ≡ true)
        × (all is_green base.0 ≡ true)
        × All (λ a. All (λ m. Noticed w specs a m) ms) names
  unfolding probe_copies
  copies_clean ms names (seen, false) e h = absurd (ground arith)
  copies_clean ms names (seen, true) e h = elim (Bool-cases (all is_green seen)) [
    | inr red ↦ absurd (ground arith)
    | inl green ↦ (
      refl,
      green,
      (probe_artifacts-clean w specs ms names (record (empty_report names) { baseline = seen })
          (ground arith)).1,
    )
  ]

  probe_clean :
      (ms : List Mutation) (names : List String)
      → (run_mutation_probe w (some names) specs ms).error ≡ none
      → is_clean (run_mutation_probe w (some names) specs ms) ≡ true
      → (is_clean
            (probe_copies w specs ms (run_baseline w.baseline_run specs []) (empty_report names))
          ≡ true)
        × ((probe_copies w specs ms
              (run_baseline w.baseline_run specs [])
              (empty_report names)).error
            ≡ none)
  unfolding run_mutation_probe
  probe_clean ms names e h = ground arith

  undeclared_unbound : (ms : List Mutation) → bound (run_mutation_probe w none specs ms) ≡ false
  unfolding bound run_mutation_probe
  undeclared_unbound ms = refl

  -- Where a mutation probe reports the evidence as bound, every mutation of every declared artifact
  -- was carried out on a copy, and some declared check passed on the pristine copy and failed on
  -- that one.
  pub bound_means_detected :
      (artifacts : Option (List String)) (ms : List Mutation)
      → bound (run_mutation_probe w artifacts specs ms) ≡ true
      → (names : List String) × (artifacts ≡ some names)
        × All (λ a. All (λ m. Contrast w specs a m) ms) names
  bound_means_detected none ms h = unclean (undeclared_unbound ms) h
  bound_means_detected (some names) ms h =
      let (clean, fine) = bound-is_clean (run_mutation_probe w (some names) specs ms) h in
      let (kept, ok) = probe_clean ms names fine clean in
      let (done, green, seen) =
        copies_clean ms names (run_baseline w.baseline_run specs []) ok kept in
      (
        names,
        refl,
        contrasts ms names (λ k i. baseline_green w.baseline_run specs k done green i) seen,
      )
