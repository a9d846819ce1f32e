-- ===== src/Proof/Status/Results.antt =====
-- `results` of `evaluate_status`: the worst report of each name that has an authoritative report.
use text.Mathlib.TextEquality.{eq_iff}
use mathlib.Core.Option
use causal_continuity_engine.Prelude.{
  String, Bool, true, false, string_eq, List, [], ◌∷◌, Option, none, some, contains, lookup, ok,
  is_empty, ◌≡◌, ◌↔◌, ◌∙◌, subst, sym, refl, ap, arith,
}
use causal_continuity_engine.Prelude.Names.{is_empty-contains}
use causal_continuity_engine.Proof.Status.{
  VerificationResult, Verification, Groups, Results, Collected, add_report, worst, worst_results,
  collect, record_result, names_where, Source, executed, verifier_authoritative, self_asserted,
}
use causal_continuity_engine.Proof.Status.Grouping.{
  merge, reports, lookup-add_report, lookup-collect, collect_cons, collect_one-Accepted,
}

-- no name has two entries
abbrev pub NoRepeats : {V : Type 0} → List (String × V) → Type 0
NoRepeats [] = Unit
NoRepeats ((n, v) ∷ l) = (lookup n l ≡ none) × NoRepeats l

add_report-NoRepeats :
    (n : String) (r : VerificationResult) (g : Groups) → NoRepeats g → NoRepeats (add_report n r g)
unfolding add_report
add_report-NoRepeats n r [] h = (refl, tt)
add_report-NoRepeats n r ((k, (s, rs)) ∷ g) h =
    ground (arith, eq_iff n k, eq_iff k n, lookup-add_report k n r g, add_report-NoRepeats n r g)

record_result-NoRepeats :
    (n : String) (r : VerificationResult) (s : Source) (c : Collected)
    → NoRepeats c.by_verifier
    → NoRepeats (record_result n r s c).by_verifier
unfolding record_result
record_result-NoRepeats n r executed c h = add_report-NoRepeats n r c.by_verifier h
record_result-NoRepeats n r verifier_authoritative c h = add_report-NoRepeats n r c.by_verifier h
record_result-NoRepeats n r self_asserted c h = h

pub collect-NoRepeats :
    (vs : List Verification) (c c' : Collected)
    → collect vs c ≡ ok c'
    → NoRepeats c.by_verifier
    → NoRepeats c'.by_verifier
unfolding collect
collect-NoRepeats [] c c' e h = ground arith
collect-NoRepeats (v ∷ vs) c c' e h =
    let (d, first, rest) = collect_cons v vs c c' e in
    let a = collect_one-Accepted v c d first in
    collect-NoRepeats vs d c' rest (
      subst (λ (x : Collected). NoRepeats x.by_verifier) a.recorded
        (record_result-NoRepeats v.verifier a.result a.source c h))

lookup-worst_results :
    (n : String) (g : Groups) → lookup n (worst_results g) ≡ Option.map worst (lookup n g)
unfolding worst_results
lookup-worst_results n [] = refl
lookup-worst_results n ((k, rs) ∷ g) = ground (arith, lookup-worst_results n g)

pub worst_results-NoRepeats : (g : Groups) → NoRepeats g → NoRepeats (worst_results g)
unfolding worst_results
worst_results-NoRepeats [] h = tt
worst_results-NoRepeats ((k, rs) ∷ g) h =
    (lookup-worst_results k g ∙ ap (Option.map worst) h.0, worst_results-NoRepeats g h.1)

-- the result that a list of verifications gives a name
unfoldable pub outcome : String → List Verification → Option VerificationResult
outcome n vs = Option.map worst (merge none (reports n vs))

pub lookup-outcome :
    (n : String) (vs : List Verification) (names : List String) (c : Collected)
    → collect vs (record { by_verifier = []; self_asserted_names = names }) ≡ ok c
    → lookup n (worst_results c.by_verifier) ≡ outcome n vs
unfolding outcome
lookup-outcome n vs names c h =
    lookup-worst_results n c.by_verifier
    ∙ ap (Option.map worst)
        (lookup-collect n vs (record { by_verifier = []; self_asserted_names = names }) c h)

-- a name passes the test of a comprehension over `results.items()` if its own result does
abbrev pub holds_at :
    (String → VerificationResult → Bool) → String → Option VerificationResult → Bool
holds_at p n none = false
holds_at p n (some r) = p n r

pub contains-names_where :
    (p : String → VerificationResult → Bool) (l : Results) (n : String)
    → NoRepeats l
    → contains (names_where p l) n ≡ holds_at p n (lookup n l)
unfolding names_where
contains-names_where p [] n h = refl
contains-names_where p ((k, r) ∷ l) n h = ground (arith, eq_iff n k, contains-names_where p l n)

pub is_empty-names_where :
    (p : String → VerificationResult → Bool) (l : Results)
    → NoRepeats l
    → (is_empty (names_where p l) ≡ true) ↔ ((n : String) → holds_at p n (lookup n l) ≡ false)
is_empty-names_where p l h = (
  λ e n. sym (contains-names_where p l n h) ∙ (is_empty-contains (names_where p l)).0 e n,
  λ f. (is_empty-contains (names_where p l)).1 (λ n. contains-names_where p l n h ∙ f n),
)
