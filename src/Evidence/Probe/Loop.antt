-- ===== src/Evidence/Probe/Loop.antt =====
-- The loop of `run_mutation_probe`: a report without misses rests on a detection for each mutation.
use causal_continuity_engine.Prelude.{
  String, Bool, true, false, ◌&&◌, string_eq, if◌then◌else◌, List, [], ◌∷◌, ◌++◌, Option, some, In,
  is_empty, ◌≡◌, refl, arith,
}
use causal_continuity_engine.Proof.Status.{VerificationResult, failed}
use causal_continuity_engine.Evidence.Probe.{
  Mutation, Application, applied, not_present, escaped, os_error, World, MutationReport,
  Observation, noticed, unnoticed, raised, observe, probe_one, probe_mutations, probe_artifacts,
  record_observation, record_application,
}
use causal_continuity_engine.Prelude.{All, ap}
use causal_continuity_engine.Evidence.Probe.{
  Why, miss, undecided, survived, crashed, not_copied, absent_at_probe, refused, could_not_mutate,
}

-- A check that some run found failing.
observe-noticed :
    (run : String → Option VerificationResult) (specs crashes : List String) (s : String)
    → observe run specs crashes ≡ noticed s
    → In s specs × (run s ≡ some failed)
unfolding observe
observe-noticed run [] crashes s h = absurd (ground arith)
observe-noticed run (t ∷ specs) crashes s h =
    ground
      (arith, observe-noticed run specs crashes s, observe-noticed run specs (crashes ++ t ∷ []) s)

-- No run of the loop's body found anything but a detection.
abbrev pub is_clean : MutationReport → Bool
is_clean r = is_empty r.undetected && is_empty r.inconclusive_runs

-- what one detection rests on
pub record Noticed (w : World) (specs : List String) (a : String) (m : Mutation) : Type 0 where
  pub copied : w.copied a m ≡ true
  pub destroyed : w.apply a m ≡ applied
  pub by : String
  pub listed : In by specs
  pub failing : w.run a m by ≡ some failed

snoc_nonempty : {A : Type 0} (xs : List A) (x : A) → is_empty (xs ++ x ∷ []) ≡ false
snoc_nonempty [] x = refl
snoc_nonempty (y ∷ xs) x = refl

pub unclean {ℓ} : {A : Type ℓ} {b : Bool} → b ≡ false → b ≡ true → A
unclean h k = absurd (ground arith)

miss_unclean :
    (a : String) (m : Mutation) (why : Why) (r : MutationReport) → is_clean (miss a m why r) ≡ false
miss_unclean a m why r = ap (λ b. b && is_empty r.inconclusive_runs) (snoc_nonempty r.undetected _)

and_false : (b c : Bool) → c ≡ false → (b && c) ≡ false
and_false b c h = ground arith

undecided_unclean :
    (a : String) (m : Mutation) (why : Why) (r : MutationReport)
    → is_clean (undecided a m why r) ≡ false
undecided_unclean a m why r =
    and_false (is_empty r.undetected) _ (snoc_nonempty r.inconclusive_runs _)

record_observation-clean :
    (a : String) (m : Mutation) (o : Observation) (r : MutationReport)
    → is_clean (record_observation a m o r) ≡ true
    → (is_clean r ≡ true) × ((s : String) × (o ≡ noticed s))
record_observation-clean a m (noticed s) r h = (h, (s, refl))
record_observation-clean a m (unnoticed []) r h = unclean (miss_unclean a m survived r) h
record_observation-clean a m (unnoticed (c ∷ cs)) r h =
    unclean (undecided_unclean a m (crashed (c ∷ cs)) r) h
record_observation-clean a m raised r h = unclean (undecided_unclean a m not_copied r) h

record_application-clean :
    (a : String) (m : Mutation) (x : Application) (o : Observation) (r : MutationReport)
    → is_clean (record_application a m x o r) ≡ true
    → (x ≡ applied) × ((is_clean r ≡ true) × ((s : String) × (o ≡ noticed s)))
record_application-clean a m applied o r h = (refl, record_observation-clean a m o r h)
record_application-clean a m not_present o r h = unclean (miss_unclean a m absent_at_probe r) h
record_application-clean a m escaped o r h = unclean (miss_unclean a m refused r) h
record_application-clean a m os_error o r h = unclean (miss_unclean a m could_not_mutate r) h

copied-clean :
    (a : String) (m : Mutation) (copied : Bool) (x : Application) (o : Observation)
    (r : MutationReport)
    → is_clean (if copied then record_application a m x o r else undecided a m not_copied r) ≡ true
    → (copied ≡ true) × (is_clean (record_application a m x o r) ≡ true)
copied-clean a m true x o r h = (refl, h)
copied-clean a m false x o r h = unclean (undecided_unclean a m not_copied r) h

probe_one-clean :
    (w : World) (specs : List String) (a : String) (m : Mutation) (r : MutationReport)
    → is_clean (probe_one w specs a m r) ≡ true
    → (is_clean r ≡ true) × Noticed w specs a m
unfolding probe_one
probe_one-clean w specs a m r h =
    let o = observe (w.run a m) specs [] in
    let (copied, kept) = copied-clean a m (w.copied a m) (w.apply a m) o r h in
    let (destroyed, (clean, found)) = record_application-clean a m (w.apply a m) o r kept in
    let (listed, failing) = observe-noticed (w.run a m) specs [] found.0 found.1 in
    (
      clean,
      record {
        copied = copied;
        destroyed = destroyed;
        by = found.0;
        listed = listed;
        failing = failing;
      },
    )

probe_mutations-clean :
    (w : World) (specs : List String) (a : String) (ms : List Mutation) (r : MutationReport)
    → is_clean (probe_mutations w specs a ms r) ≡ true
    → (is_clean r ≡ true) × All (λ m. Noticed w specs a m) ms
unfolding probe_mutations
probe_mutations-clean w specs a [] r h = (h, tt)
probe_mutations-clean w specs a (m ∷ ms) r h =
    let (clean, later) = probe_mutations-clean w specs a ms (probe_one w specs a m r) h in
    let (before, now) = probe_one-clean w specs a m r clean in (before, (now, later))

pub probe_artifacts-clean :
    (w : World) (specs : List String) (ms : List Mutation) (names : List String)
    (r : MutationReport)
    → is_clean (probe_artifacts w specs ms names r) ≡ true
    → (is_clean r ≡ true) × All (λ a. All (λ m. Noticed w specs a m) ms) names
unfolding probe_artifacts
probe_artifacts-clean w specs ms [] r h = (h, tt)
probe_artifacts-clean w specs ms (a ∷ names) r h =
    let (clean, later) =
      probe_artifacts-clean w specs ms names (probe_mutations w specs a ms r) h in
    let (before, now) = probe_mutations-clean w specs a ms r clean in (before, (now, later))
