-- ===== src/Evidence/Runs.antt =====
-- The probes and the grade of evidence.py on a concrete task, and the theorems at it.
use causal_continuity_engine.Prelude.{
  String, true, false, not, List, [], ◌∷◌, Option, none, some, All, all, is_empty, contains, ok,
  string_eq, ◌==◌, if◌then◌else◌, ◌≡◌, refl, ◌↔◌,
}
use causal_continuity_engine.Proof.Status.{VerificationResult, passed, failed, inconclusive}
use causal_continuity_engine.Evidence.Probe.{
  World, applied, MutationReport, default_mutations, run_mutation_probe, probe_copies, run_baseline,
  probe_artifacts, probe_mutations, probe_one, observe, bound,
}
use causal_continuity_engine.Evidence.Probe.Bound.{Contrast, bound_means_detected}
use causal_continuity_engine.Evidence.Grading.{
  a, b, Outcome, Controls, Probes, EvidenceGrade, grade_evidence, grade_accepted, capped_grade,
  first_fault, by_name, verifier_names, cap_unpinned, cap, index, shown, has_status,
  is_missing_probe, is_unstable, no_mutation_probe,
}
use causal_continuity_engine.Evidence.Grading.Steps.{is_executed, is_bound}
use causal_continuity_engine.Evidence.Grading.Top.{grade_evidence-top}

abbrev artifacts : List String
artifacts = "report.txt" ∷ "table.csv" ∷ []

abbrev checks : List String
checks = "lint" ∷ "content" ∷ []

-- the content check fails once an artifact is destroyed, the other one always passes
abbrev after : String → Option VerificationResult
after check = if check == "content" then some failed else some passed

abbrev world : World
world = record {
  baseline_copied = true;
  baseline_run = λ check. some passed;
  copied = λ name m. true;
  apply = λ name m. applied;
  run = λ name m. after;
}

abbrev report : MutationReport
report = run_mutation_probe world (some artifacts) checks default_mutations

report-bound : bound report ≡ true
unfolding bound run_mutation_probe probe_copies run_baseline probe_artifacts probe_mutations
    probe_one observe
report-bound = refl

-- a check that crashes on the mutated copy binds nothing
abbrev crashing : World
crashing = record world { run = λ name m check. some inconclusive }

crashing-unbound :
    bound (run_mutation_probe crashing (some artifacts) checks default_mutations) ≡ false
unfolding bound run_mutation_probe probe_copies run_baseline probe_artifacts probe_mutations
    probe_one observe
crashing-unbound = refl

bound_means_detected_example :
    (names : List String) × (some artifacts ≡ some names)
    × All (λ name. All (λ m. Contrast world checks name m) default_mutations) names
bound_means_detected_example =
    bound_means_detected world checks (some artifacts) default_mutations report-bound

abbrev outcomes : List Outcome
outcomes =
    (record { verifier = some "content"; result = some "passed"; source = some "executed" }) ∷ []

abbrev required : List String
required = "content" ∷ []

abbrev controls : Controls
controls = ("content", some "held") ∷ []

abbrev probes : Probes
probes = ("content", record { stable = true; results = "passed" ∷ "passed" ∷ [] }) ∷ []

abbrev best : EvidenceGrade
best = record { grade = a; reasons = shown ∷ []; caps = [] }

graded_best : grade_evidence outcomes required controls (some report) probes [] ≡ ok best
unfolding grade_evidence grade_accepted capped_grade first_fault by_name verifier_names cap_unpinned
    cap index bound run_mutation_probe probe_copies run_baseline probe_artifacts probe_mutations
    probe_one observe
graded_best = refl

abbrev unbound_grade : EvidenceGrade
unbound_grade = record { grade = b; reasons = []; caps = no_mutation_probe ∷ [] }

graded_unbound : grade_evidence outcomes required controls none probes [] ≡ ok unbound_grade
unfolding grade_evidence grade_accepted capped_grade first_fault by_name verifier_names cap_unpinned
    cap index
graded_unbound = refl

grade_evidence-top_example : (best.grade ≡ a) ↔ (
    (is_empty required ≡ false)
    × (all (is_executed outcomes) required ≡ true)
    × (all (λ n. not (contains [] n)) required ≡ true)
    × (is_bound (some report) ≡ true)
    × (all (has_status "held" controls) required ≡ true)
    × (all (λ n. not (is_missing_probe probes n)) required ≡ true)
    × (all (λ n. not (is_unstable probes n)) required ≡ true))
grade_evidence-top_example =
    grade_evidence-top required controls (some report) probes [] outcomes best graded_best
