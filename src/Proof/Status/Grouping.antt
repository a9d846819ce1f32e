-- ===== src/Proof/Status/Grouping.antt =====
-- What the loop of `evaluate_status` collects: for each name the authoritative results reported
-- under it, in order, and nothing that was self-asserted.
use text.Mathlib.TextEquality.{eq_iff}
use causal_continuity_engine.Prelude.{
  String, Bool, false, ◌&&◌, ◌==◌, string_eq, if◌then◌else◌, List, [], ◌∷◌, ◌++◌, Option, none,
  some, lookup, ok, ◌≡◌, refl, ap, ap₂, sym, ◌∙◌, inl, inr, arith, append_assoc, append-nil,
  >>=-eq-ok, Option-cases,
}
use causal_continuity_engine.Prelude.{raise_if}
use causal_continuity_engine.Prelude.Text.{is_blank}
use causal_continuity_engine.Proof.Status.{
  VerificationResult, Source, Verification, Reports, Groups, Collected, is_authoritative,
  result_of_text, source_of_text, add_report, collect_one, collect, record_result, executed,
  verifier_authoritative, self_asserted,
}

abbrev reported_as : Bool → Option Source → Option VerificationResult → List VerificationResult
reported_as same (some source) (some r) = if same && is_authoritative source then r ∷ [] else []
reported_as same _ _ = []

-- the results that one verification adds under a name
unfoldable pub reported : String → Verification → List VerificationResult
reported n v = reported_as (n == v.verifier) (source_of_text v.source) (result_of_text v.result)

-- the authoritative results that a list of verifications reports under a name
unfoldable pub reports : String → List Verification → List VerificationResult
reports n [] = []
reports n (v ∷ vs) = reported n v ++ reports n vs

-- reports added to those that a name has already
abbrev pub merge : Option Reports → List VerificationResult → Option Reports
merge none [] = none
merge none (r ∷ rs) = some (r, rs)
merge (some (r, rs)) xs = some (r, rs ++ xs)

merge-append :
    (o : Option Reports) (xs ys : List VerificationResult)
    → merge (merge o xs) ys ≡ merge o (xs ++ ys)
merge-append none [] ys = refl
merge-append none (x ∷ xs) ys = refl
merge-append (some (r, rs)) xs ys =
    ap (λ (t : List VerificationResult). some (r, t)) (append_assoc rs xs ys)

merge-nil : (o : Option Reports) → merge o [] ≡ o
merge-nil none = refl
merge-nil (some (r, rs)) = ap (λ (t : List VerificationResult). some (r, t)) (append-nil rs)

pub lookup-add_report :
    (n m : String) (r : VerificationResult) (groups : Groups)
    → lookup n (add_report m r groups) ≡ merge (lookup n groups) (if n == m then r ∷ [] else [])
unfolding add_report
lookup-add_report n m r [] = ground arith
lookup-add_report n m r ((k, (s, rs)) ∷ groups) = ground (
  arith,
  eq_iff n m,
  eq_iff m k,
  eq_iff n k,
  lookup-add_report n m r groups,
  append-nil rs,
  merge-nil (lookup n groups),
)

-- What the loop's body read, when it raised nothing.
pub record Accepted (v : Verification) (c c' : Collected) : Type 0 where
  pub result : VerificationResult
  pub source : Source
  pub named : is_blank v.verifier ≡ false
  pub result_read : result_of_text v.result ≡ some result
  pub source_read : source_of_text v.source ≡ some source
  pub recorded : record_result v.verifier result source c ≡ c'

pub collect_one-Accepted :
    (v : Verification) (c c' : Collected) → collect_one v c ≡ ok c' → Accepted v c c'
unfolding collect_one record_result
collect_one-Accepted v c c' h = elim (Option-cases (result_of_text v.result)) [
  | inl bad ↦ absurd (ground arith)
  | inr (r, good) ↦ elim (Option-cases (source_of_text v.source)) [
    | inl bad ↦ absurd (ground arith)
    | inr (s, fine) ↦ record {
      result = r;
      source = s;
      named = ground arith;
      result_read = good;
      source_read = fine;
      recorded = ground arith;
    }
  ]
]

-- The same verification is read the same way in any state of the loop.
pub Accepted-collect_one :
    {v : Verification} {c c' : Collected} (a : Accepted v c c') (d : Collected)
    → collect_one v d ≡ ok (record_result v.verifier a.result a.source d)
unfolding collect_one
Accepted-collect_one {v} a d = simp (a.named, a.result_read, a.source_read, raise_if)

lookup-record_result :
    (n m : String) (r : VerificationResult) (s : Source) (c : Collected)
    → lookup n (record_result m r s c).by_verifier
      ≡ merge (lookup n c.by_verifier) (if n == m && is_authoritative s then r ∷ [] else [])
unfolding record_result
lookup-record_result n m r executed c = ground (arith, lookup-add_report n m r c.by_verifier)
lookup-record_result n m r verifier_authoritative c =
    ground (arith, lookup-add_report n m r c.by_verifier)
lookup-record_result n m r self_asserted c = ground (arith, merge-nil (lookup n c.by_verifier))

reported-Accepted :
    {v : Verification} {c c' : Collected} (n : String) (a : Accepted v c c')
    → reported n v ≡ (if n == v.verifier && is_authoritative a.source then a.result ∷ [] else [])
unfolding reported
reported-Accepted {v} n a = ap₂ (reported_as (n == v.verifier)) a.source_read a.result_read

lookup-collect_one :
    (n : String) (v : Verification) (c c' : Collected)
    → collect_one v c ≡ ok c'
    → lookup n c'.by_verifier ≡ merge (lookup n c.by_verifier) (reported n v)
lookup-collect_one n v c c' h =
    let a = collect_one-Accepted v c c' h in
    ap (λ (d : Collected). lookup n d.by_verifier) (sym a.recorded)
    ∙ lookup-record_result n v.verifier a.result a.source c
    ∙ ap (merge (lookup n c.by_verifier)) (sym (reported-Accepted n a))

-- The first round of a loop that raised nothing, and the rest of it.
pub collect_cons :
    (v : Verification) (vs : List Verification) (c c' : Collected)
    → collect (v ∷ vs) c ≡ ok c'
    → (d : Collected) × (collect_one v c ≡ ok d) × (collect vs d ≡ ok c')
unfolding collect
collect_cons v vs c c' h = >>=-eq-ok (collect_one v c) (collect vs) h

-- After the loop a name has the reports that it had before and those of the verifications.
pub lookup-collect :
    (n : String) (vs : List Verification) (c c' : Collected)
    → collect vs c ≡ ok c'
    → lookup n c'.by_verifier ≡ merge (lookup n c.by_verifier) (reports n vs)
unfolding collect reports
lookup-collect n [] c c' h = ground (arith, merge-nil (lookup n c.by_verifier))
lookup-collect n (v ∷ vs) c c' h =
    let (d, first, rest) = collect_cons v vs c c' h in
    lookup-collect n vs d c' rest
    ∙ ap (λ o. merge o (reports n vs)) (lookup-collect_one n v c d first)
    ∙ merge-append (lookup n c.by_verifier) (reported n v) (reports n vs)
