-- ===== src/Proof/Status/Stability.antt =====
-- What later reports and self-assertions can do to the status that `evaluate_status` of proof.py
-- gives: a failure stands, and a self-assertion changes nothing.
use causal_continuity_engine.Prelude.{
  String, Bool, true, false, string_eq, List, [], ◌∷◌, ◌++◌, Option, none, some, ok, filter, In,
  ◌≡◌, ◌∙◌, sym, subst, refl, ap, arith, inl, inr, >>=-eq-ok, Bool-cases, append_assoc,
}
use causal_continuity_engine.Prelude.Text.{sorted_set}
use causal_continuity_engine.Proof.Status.{
  VerificationResult, Verification, Collected, collect, record_result, ProofStatus, Summary, failed,
  Source, source_of_text, is_authoritative, summarize, status_of, conclude, required_names,
  evaluate_status, worst_results, Results,
}
use causal_continuity_engine.Proof.Status.Grouping.{
  reported, reports, collect_cons, Accepted, collect_one-Accepted, Accepted-collect_one,
}
use causal_continuity_engine.Proof.Status.Verdict.{evaluate_status-failed}

reports-append :
    (n : String) (vs ws : List Verification) → reports n (vs ++ ws) ≡ reports n vs ++ reports n ws
unfolding reports
reports-append n [] ws = refl
reports-append n (v ∷ vs) ws = rw (reports-append n vs ws) (sym (append_assoc (reported n v) _ _))

In-append_left : {A : Type 0} (a : A) (xs ys : List A) → In a xs → In a (xs ++ ys)
In-append_left a [] ys h = elim h [ ]
In-append_left a (x ∷ xs) ys (inl e) = inl e
In-append_left a (x ∷ xs) ys (inr h) = inr (In-append_left a xs ys h)

-- A failed status is final: whatever is reported later, passes included, the status stays `failed`.
pub failure_stands :
    (vs ws : List Verification) (req : Option (List String)) (names : List String)
    (p q : ProofStatus × Summary)
    → required_names req ≡ ok names
    → evaluate_status vs req ≡ ok p
    → evaluate_status (vs ++ ws) req ≡ ok q
    → p.0 ≡ failed
    → q.0 ≡ failed
failure_stands vs ws req names p q named h k f =
    let (n, scope, m) = (evaluate_status-failed vs req names p named h).0 f in
    (evaluate_status-failed (vs ++ ws) req names q named k).1 (
      n,
      scope,
      subst (In failed) (sym (reports-append n vs ws)) (In-append_left failed _ (reports n ws) m),
    )

-- the verifications that are not self-asserted
unfoldable pub is_observed : Verification → Bool
is_observed v = elim (source_of_text v.source) [ none ↦ true | some s ↦ is_authoritative s ]

unfoldable pub observed : List Verification → List Verification
observed = filter is_observed

is_observed-Accepted :
    {v : Verification} {c c' : Collected} (a : Accepted v c c')
    → is_observed v ≡ is_authoritative a.source
unfolding is_observed
is_observed-Accepted a = rw (a.source_read, is_observed)

abbrev with_names : List String → Collected → Collected
with_names kept c = record c { self_asserted_names = kept }

record_result-observed :
    (n : String) (r : VerificationResult) (s : Source) (c : Collected) (kept : List String)
    → is_authoritative s ≡ true
    → record_result n r s (with_names kept c) ≡ with_names kept (record_result n r s c)
unfolding record_result
record_result-observed n r s c kept h = ground arith

record_result-asserted :
    (n : String) (r : VerificationResult) (s : Source) (c : Collected) (kept : List String)
    → is_authoritative s ≡ false
    → with_names kept (record_result n r s c) ≡ with_names kept c
unfolding record_result
record_result-asserted n r s c kept h = ground arith

-- Dropping the self-assertions leaves the groups, and nothing that was self-asserted.
collect-observed :
    (vs : List Verification) (c d : Collected) (kept : List String)
    → collect vs c ≡ ok d
    → collect (observed vs) (with_names kept c) ≡ ok (with_names kept d)
unfolding collect observed
collect-observed [] c d kept h = ground arith
collect-observed (v ∷ vs) c d kept h =
    let (next, first, rest) = collect_cons v vs c d h in
    let a = collect_one-Accepted v c next first in
    let later = collect-observed vs next d kept rest in
    elim (Bool-cases (is_observed v)) [
      | inl seen ↦
          let authoritative = sym (is_observed-Accepted a) ∙ seen in
          let state =
            record_result-observed v.verifier a.result a.source c kept authoritative
            ∙ ap (with_names kept) a.recorded in
          rw (seen, Accepted-collect_one a (with_names kept c), state) later
      | inr unseen ↦
          let asserted = sym (is_observed-Accepted a) ∙ unseen in
          let state =
            sym (record_result-asserted v.verifier a.result a.source c kept asserted)
            ∙ ap (with_names kept) a.recorded in
          rw (unseen, state) later
    ]

no_names : (l : List String) → filter (λ n. false) l ≡ []
no_names [] = refl
no_names (n ∷ l) = no_names l

-- The status and the other lists of the summary do not read the self-asserted names.
conclude_without :
    (names : List String) (results : Results) (selfs : List String)
    → let p = conclude names results selfs in
      conclude names results [] ≡ (p.0, record p.1 { unbacked_self_assertions = [] })
unfolding conclude summarize status_of sorted_set
conclude_without names results selfs = rw (no_names names)

-- Taking every self-assertion out of the verifications gives the same status and the same summary,
-- except that no self-assertion is listed as unbacked.
pub self_assertions_inert :
    (vs : List Verification) (req : Option (List String)) (p : ProofStatus × Summary)
    → evaluate_status vs req ≡ ok p
    → evaluate_status (observed vs) req ≡ ok (p.0, record p.1 { unbacked_self_assertions = [] })
unfolding evaluate_status
self_assertions_inert vs req p h =
    let (names, named, rest) = >>=-eq-ok (required_names req) _ h in
    let (c, collected, last) =
      >>=-eq-ok (collect vs start)
        (λ c. ok (conclude names (worst_results c.by_verifier) c.self_asserted_names)) rest in
    rw (named, collect-observed vs start c [] collected)
      (rw (conclude_without names (worst_results c.by_verifier) c.self_asserted_names) (cc))
  where
    start : Collected
    start = record { by_verifier = []; self_asserted_names = [] }
