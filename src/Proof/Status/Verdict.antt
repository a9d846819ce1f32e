-- ===== src/Proof/Status/Verdict.antt =====
-- When `evaluate_status` of proof.py says `verified` or `failed`, in terms of the authoritative
-- reports alone.
use mathlib.Core.Option
use causal_continuity_engine.Prelude.{
  String, true, false, string_eq, List, [], ◌∷◌, Option, none, some, contains, lookup, ok, is_empty,
  all, In, All, ◌≡◌, ◌≢◌, ◌↔◌, ◌∙◌, sym, refl, ap, arith, >>=-eq-ok, and_true,
}
use causal_continuity_engine.Prelude.Text.{is_empty-sorted_set}
use causal_continuity_engine.Prelude.Names.{
  nonempty_iff, is_empty-append, all-filter, all-contains, contains-all,
}
use causal_continuity_engine.Proof.Status.{
  VerificationResult, Verification, Results, Collected, worst, worst_results, collect, names_where,
  ProofStatus, Summary, verified, passed, failed, is_absent, is_passed, in_scope, counts_missing,
  counts_failed, counts_inconclusive, counts_skipped, summarize, status_of, conclude,
  required_names, evaluate_status,
}
use causal_continuity_engine.Proof.Status.Grouping.{merge, reports}
use causal_continuity_engine.Proof.Status.Worst.{worst_from-failed, worst_from-passed}
use causal_continuity_engine.Proof.Status.Results.{
  NoRepeats, collect-NoRepeats, worst_results-NoRepeats, outcome, lookup-outcome, holds_at,
  is_empty-names_where, contains-names_where,
}

-- A verifier passes if it was observed at least once and every observation passed.
abbrev pub Passes : String → List Verification → Type 0
Passes n vs = (reports n vs ≢ []) × All (λ r. r ≡ passed) (reports n vs)

worst-passed :
    (rs : List VerificationResult)
    → (Option.map worst (merge none rs) ≡ some passed) ↔ ((rs ≢ []) × All (λ r. r ≡ passed) rs)
unfolding worst
worst-passed [] = (λ h. cc, λ h. absurd (h.0 refl))
worst-passed (r ∷ rs) = ground (arith, worst_from-passed r rs)

worst-failed :
    (rs : List VerificationResult) → (Option.map worst (merge none rs) ≡ some failed) ↔ In failed rs
unfolding worst
worst-failed [] = (λ h. cc, λ h. elim h [ ])
worst-failed (r ∷ rs) = ground (arith, worst_from-failed r rs)

outcome-passed : (n : String) (vs : List Verification) → (outcome n vs ≡ some passed) ↔ Passes n vs
unfolding outcome
outcome-passed n vs = worst-passed (reports n vs)

outcome-failed :
    (n : String) (vs : List Verification) → (outcome n vs ≡ some failed) ↔ In failed (reports n vs)
unfolding outcome
outcome-failed n vs = worst-failed (reports n vs)

-- What `evaluate_status` computed, when it raised nothing.
record Evaluated (vs : List Verification) (names : List String) (p : ProofStatus × Summary)
    : Type 0 where
  pub results : Results
  pub selfs : List String
  pub distinct : NoRepeats results
  pub looked_up : (n : String) → lookup n results ≡ outcome n vs
  pub concluded : conclude names results selfs ≡ p

evaluate_status-Evaluated :
    (vs : List Verification) (req : Option (List String)) (names : List String)
    (p : ProofStatus × Summary)
    → required_names req ≡ ok names
    → evaluate_status vs req ≡ ok p
    → Evaluated vs names p
unfolding evaluate_status
evaluate_status-Evaluated vs req names p named h =
    let start : Collected = record { by_verifier = []; self_asserted_names = [] } in
    let (c, collected, last) =
      >>=-eq-ok (collect vs start)
        (λ c. ok (conclude names (worst_results c.by_verifier) c.self_asserted_names))
        (rw named at h) in
    record {
      results = worst_results c.by_verifier;
      selfs = c.self_asserted_names;
      distinct = worst_results-NoRepeats c.by_verifier (collect-NoRepeats vs start c collected tt);
      looked_up = λ n. lookup-outcome n vs [] c collected;
      concluded = cc;
    }

abbrev first : ProofStatus × Summary → ProofStatus
first p = p.0

-- A declared list that was not refused is taken as it is.
required_names-some :
    (vs : List Verification) (names : List String) (p : ProofStatus × Summary)
    → evaluate_status vs (some names) ≡ ok p
    → required_names (some names) ≡ ok names
unfolding evaluate_status required_names
required_names-some vs names p h = ground arith

module _ (names : List String) (l : Results) (selfs : List String) (distinct : NoRepeats l) where
  -- every declared verifier passed
  abbrev AllPassed : Type 0
  AllPassed = (n : String) → contains names n ≡ true → lookup n l ≡ some passed

  passed_all : AllPassed → all (is_passed l) names ≡ true
  passed_all h = contains-all (is_passed l) names (λ n m. ground (arith, h n m))

  no_missing : AllPassed → is_empty (summarize names l selfs).missing ≡ true
  unfolding summarize
  no_missing h =
      rw (is_empty-sorted_set, is_empty-append)
        (and_true
          (all-filter (is_passed l) (is_absent l) names (passed_all h) (λ n e. ground arith))
          ((is_empty-names_where (counts_missing names) l distinct).1 (λ n. ground (arith, h n))))

  no_failed : is_empty names ≡ false → AllPassed → is_empty (summarize names l selfs).failed ≡ true
  unfolding summarize
  no_failed some_names h =
      rw is_empty-sorted_set
        ((is_empty-names_where (counts_failed names) l distinct).1 (λ n. ground (arith, h n)))

  no_skipped : AllPassed → is_empty (summarize names l selfs).skipped ≡ true
  unfolding summarize
  no_skipped h =
      rw is_empty-sorted_set
        ((is_empty-names_where (counts_skipped names) l distinct).1 (λ n. ground (arith, h n)))

  no_inconclusive :
      is_empty names ≡ false → AllPassed → is_empty (summarize names l selfs).inconclusive ≡ true
  unfolding summarize
  no_inconclusive some_names h =
      rw is_empty-sorted_set
        ((is_empty-names_where (counts_inconclusive names) l distinct).1 (λ n. ground (arith, h n)))

  conclude-verified : is_empty names ≡ false → ((conclude names l selfs).0 ≡ verified) ↔ AllPassed
  unfolding conclude status_of
  conclude-verified some_names = (
    λ h n m. ground (arith, all-contains (is_passed l) names n (ground arith) m),
    λ h. ground (
      arith,
      passed_all h,
      no_missing h,
      no_failed some_names h,
      no_skipped h,
      no_inconclusive some_names h,
    ),
  )

  failed_names : List String
  failed_names = names_where (counts_failed names) l

  some_failed :
      (is_empty failed_names ≡ false)
      ↔ ((n : String) × (in_scope names n ≡ true) × (lookup n l ≡ some failed))
  unfolding failed_names
  some_failed = (
    λ h.
        let (n, m) = (nonempty_iff failed_names).0 h in
        (n, ground (arith, named n), ground (arith, named n)),
    λ (n, scope, at_n). (nonempty_iff failed_names).1 (n, ground (arith, named n)),
  )
    where
      named : (n : String) → contains failed_names n ≡ holds_at (counts_failed names) n (lookup n l)
      named n = contains-names_where (counts_failed names) l n distinct

  conclude-failed :
      ((conclude names l selfs).0 ≡ failed)
      ↔ ((n : String) × (in_scope names n ≡ true) × (lookup n l ≡ some failed))
  unfolding conclude status_of summarize failed_names
  conclude-failed = (
    λ h. some_failed.0 (ground (arith, is_empty-sorted_set failed_names)),
    λ w. ground (arith, is_empty-sorted_set failed_names, some_failed.1 w),
  )

-- With declared verifiers the status is `verified` exactly when each of them was observed by an
-- authoritative source at least once and every such observation passed.
pub evaluate_status-verified :
    (vs : List Verification) (names : List String) (p : ProofStatus × Summary)
    → is_empty names ≡ false
    → evaluate_status vs (some names) ≡ ok p
    → (p.0 ≡ verified) ↔ ((n : String) → contains names n ≡ true → Passes n vs)
evaluate_status-verified vs names p some_names h =
    let e =
      evaluate_status-Evaluated vs (some names) names p (required_names-some vs names p h) h in
    let (to, from) = conclude-verified names e.results e.selfs e.distinct some_names in
    (
      λ v n m. (outcome-passed n vs).0 (sym (e.looked_up n) ∙ to (ap first e.concluded ∙ v) n m),
      λ f.
          sym (ap first e.concluded)
          ∙ from (λ n m. e.looked_up n ∙ (outcome-passed n vs).1 (f n m)),
    )

-- The status is `failed` exactly when an authoritative source reported a failure of a declared
-- verifier, or of any verifier where none is declared.
pub evaluate_status-failed :
    (vs : List Verification) (req : Option (List String)) (names : List String)
    (p : ProofStatus × Summary)
    → required_names req ≡ ok names
    → evaluate_status vs req ≡ ok p
    → (p.0 ≡ failed) ↔ ((n : String) × (in_scope names n ≡ true) × In failed (reports n vs))
evaluate_status-failed vs req names p named h =
    let e = evaluate_status-Evaluated vs req names p named h in
    let (to, from) = conclude-failed names e.results e.selfs e.distinct in
    (
      λ f.
          let (n, scope, at_n) = to (ap first e.concluded ∙ f) in
          (n, scope, (outcome-failed n vs).0 (sym (e.looked_up n) ∙ at_n)),
      λ (n, scope, m).
          sym (ap first e.concluded) ∙ from (n, scope, e.looked_up n ∙ (outcome-failed n vs).1 m),
    )
