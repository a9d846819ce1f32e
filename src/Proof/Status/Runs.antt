-- ===== src/Proof/Status/Runs.antt =====
-- `evaluate_status` of proof.py on concrete verifications, and the theorems at them.
use causal_continuity_engine.Prelude.{
  String, true, List, [], ◌∷◌, ◌++◌, some, contains, string_eq, In, ok, ◌≡◌, ◌↔◌, refl,
}
use causal_continuity_engine.Prelude.Text.{is_blank, sorted_set}
use causal_continuity_engine.Proof.Status.{
  Verification, ProofStatus, Summary, verified, VerificationResult, evaluate_status, required_names,
  collect, collect_one, record_result, result_of_text, source_of_text, add_report, worst,
  worst_results, names_where, conclude, summarize, status_of, in_scope,
}
use causal_continuity_engine.Proof.Status.Grouping.{reports}
use causal_continuity_engine.Proof.Status.Verdict.{
  Passes, evaluate_status-verified, evaluate_status-failed,
}
use causal_continuity_engine.Proof.Status.Stability.{self_assertions_inert, observed}

abbrev run_of : String → String → String → Verification
run_of name result source = record { verifier = name; result = result; source = some source }

abbrev green : List Verification
green = run_of "tests" "passed" "executed" ∷ run_of "lint" "failed" "self_asserted" ∷ []

abbrev red : List Verification
red = run_of "tests" "failed" "executed" ∷ []

abbrev green_answer : ProofStatus × Summary
green_answer = (
  verified,
  record {
    unbacked_self_assertions = [];
    required = "tests" ∷ [];
    missing = [];
    failed = [];
    inconclusive = [];
    skipped = [];
    passed = "tests" ∷ [];
  },
)

abbrev red_answer : ProofStatus × Summary
red_answer = (ProofStatus.failed, record green_summary { failed = "tests" ∷ []; passed = [] })
  where
    green_summary : Summary
    green_summary = green_answer.1

green_run : evaluate_status green (some ("tests" ∷ [])) ≡ ok green_answer
unfolding evaluate_status required_names collect collect_one record_result result_of_text
    source_of_text add_report worst worst_results names_where conclude summarize status_of is_blank
    sorted_set
green_run = refl

red_run : evaluate_status red (some ("tests" ∷ [])) ≡ ok red_answer
unfolding evaluate_status required_names collect collect_one record_result result_of_text
    source_of_text add_report worst worst_results names_where conclude summarize status_of is_blank
    sorted_set
red_run = refl

red_then_green_run : evaluate_status (red ++ green) (some ("tests" ∷ [])) ≡ ok red_answer
unfolding evaluate_status required_names collect collect_one record_result result_of_text
    source_of_text add_report worst worst_results names_where conclude summarize status_of is_blank
    sorted_set
red_then_green_run = refl

tests_named : required_names (some ("tests" ∷ [])) ≡ ok ("tests" ∷ [])
unfolding required_names is_blank
tests_named = refl

evaluate_status-verified_example :
    (verified ≡ verified) ↔ ((n : String) → contains ("tests" ∷ []) n ≡ true → Passes n green)
evaluate_status-verified_example =
    evaluate_status-verified green ("tests" ∷ []) green_answer refl green_run

evaluate_status-failed_example : (ProofStatus.failed ≡ ProofStatus.failed) ↔ (
    (n : String) × (in_scope ("tests" ∷ []) n ≡ true)
    × In VerificationResult.failed (reports n red))
evaluate_status-failed_example =
    evaluate_status-failed red (some ("tests" ∷ [])) ("tests" ∷ []) red_answer tests_named red_run

self_assertions_inert_example :
    evaluate_status (observed green) (some ("tests" ∷ [])) ≡ ok green_answer
self_assertions_inert_example =
    self_assertions_inert green (some ("tests" ∷ [])) green_answer green_run
