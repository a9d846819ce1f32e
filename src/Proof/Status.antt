-- ===== src/Proof/Status.antt =====
-- `evaluate_status` of proof.py: the status of a proof, recomputed from its verifications.
--
-- The fields of a verification are the texts of the JSON object; a missing or non-text `verifier`
-- is the empty text, which the code refuses in the same way.
mod Grouping
mod Worst
mod Results
pub mod Verdict
pub mod Stability
mod Runs
use causal_continuity_engine.Prelude.{
  ℕ, String, Bool, true, false, not, ◌&&◌, ◌||◌, ◌==◌, string_eq, ltb, if◌then◌else◌, List, [], ◌∷◌,
  ◌++◌, map, Option, none, some, any, all, filter, is_empty, contains, lookup, Result, ok, err,
  ◌>>=◌, ◌>>◌, raise_if, value_error, Eq, ◌≡◌, ◌↔◌, refl, arith,
}
use causal_continuity_engine.Prelude.Text.{is_blank, sorted_set}

-- `_VERIFICATION_RESULTS`
pub data VerificationResult : Type 0 where
  passed failed skipped missing inconclusive stale : VerificationResult

-- `_RESULT_SEVERITY`
unfoldable pub severity : VerificationResult → ℕ
severity failed = 0
severity inconclusive = 1
severity stale = 1
severity missing = 2
severity skipped = 3
severity passed = 4

-- `result in _VERIFICATION_RESULTS`
unfoldable pub result_of_text : String → Option VerificationResult
result_of_text s =
    if s == "passed"
    then some passed
    else if s == "failed"
    then some failed
    else if s == "skipped"
    then some skipped
    else if s == "missing"
    then some missing
    else if s == "inconclusive"
    then some inconclusive
    else if s == "stale"
    then some stale
    else none

-- `_VERIFICATION_SOURCES`
pub data Source : Type 0 where
  executed verifier_authoritative self_asserted : Source

-- `v.get("source", SELF_ASSERTED) in _VERIFICATION_SOURCES`
unfoldable pub source_of_text : Option String → Option Source
source_of_text none = some self_asserted
source_of_text (some s) =
    if s == "executed"
    then some executed
    else if s == "verifier_authoritative"
    then some verifier_authoritative
    else if s == "self_asserted"
    then some self_asserted
    else none

-- `source in AUTHORITATIVE_SOURCES`
abbrev pub is_authoritative : Source → Bool
is_authoritative executed = true
is_authoritative verifier_authoritative = true
is_authoritative self_asserted = false

pub record Verification : Type 0 where
  pub verifier : String
  pub result : String
  pub source : Option String

-- The results that one verifier reported, in order: there is at least one.
abbrev pub Reports : Type 0
Reports = VerificationResult × List VerificationResult

abbrev pub Groups : Type 0
Groups = List (String × Reports)

-- `by_verifier.setdefault(name, []).append(result)`
unfoldable pub add_report : String → VerificationResult → Groups → Groups
add_report name r [] = (name, (r, [])) ∷ []
add_report name r ((n, (s, rs)) ∷ groups) =
    if name == n then (n, (s, rs ++ r ∷ [])) ∷ groups else (n, (s, rs)) ∷ add_report name r groups

-- `min(results, key=…)`: the first result of the least severity number
unfoldable pub worst_from : VerificationResult → List VerificationResult → VerificationResult
worst_from best [] = best
worst_from best (r ∷ rs) = worst_from (if ltb (severity r) (severity best) then r else best) rs

-- `_worst`
unfoldable pub worst : Reports → VerificationResult
unfolding worst_from severity
worst (r, rs) = worst_from r rs

-- `by_verifier` and `self_asserted` of the loop
pub record Collected : Type 0 where
  pub by_verifier : Groups
  pub self_asserted_names : List String

abbrev or_value_error {ℓ} : {A : Type ℓ} → Option A → Result A
or_value_error none = err value_error
or_value_error (some a) = ok a

-- the last lines of the loop's body
unfoldable pub record_result : String → VerificationResult → Source → Collected → Collected
record_result name r source c =
    if is_authoritative source
    then record c { by_verifier = add_report name r c.by_verifier }
    else record c { self_asserted_names = name ∷ c.self_asserted_names }

-- the body of `for v in verifications`
unfoldable pub collect_one : Verification → Collected → Result Collected
unfolding record_result
collect_one v c = do
  raise_if (is_blank v.verifier) value_error
  r ← or_value_error (result_of_text v.result)
  source ← or_value_error (source_of_text v.source)
  ok (record_result v.verifier r source c)

unfoldable pub collect : List Verification → Collected → Result Collected
collect [] c = ok c
collect (v ∷ vs) c = do c' ← collect_one v c; collect vs c'

-- `FINAL_STATUSES`
pub data ProofStatus : Type 0 where
  verified failed incomplete inconclusive stale invalid : ProofStatus

-- the second part of the returned pair
pub record Summary : Type 0 where
  pub unbacked_self_assertions : List String
  pub required : List String
  pub missing : List String
  pub failed : List String
  pub inconclusive : List String
  pub skipped : List String
  pub passed : List String

abbrev pub Results : Type 0
Results = List (String × VerificationResult)

-- `results = {name: _worst(rs) for name, rs in by_verifier.items()}`
unfoldable pub worst_results : Groups → Results
worst_results [] = []
worst_results ((n, rs) ∷ groups) = (n, worst rs) ∷ worst_results groups

-- the names of `results` whose entry passes a test
unfoldable pub names_where : (String → VerificationResult → Bool) → Results → List String
names_where p [] = []
names_where p ((n, r) ∷ results) =
    let rest = names_where p results in if p n r then n ∷ rest else rest

abbrev pub is_result : VerificationResult → VerificationResult → Bool
is_result passed passed = true
is_result failed failed = true
is_result skipped skipped = true
is_result missing missing = true
is_result inconclusive inconclusive = true
is_result stale stale = true
is_result _ _ = false

-- `name not in results`
abbrev pub is_absent : Results → String → Bool
is_absent results n = elim (lookup n results) [ none ↦ true | some r ↦ false ]

-- `results.get(r) == "passed"`
abbrev pub is_passed : Results → String → Bool
is_passed results n = elim (lookup n results) [ none ↦ false | some r ↦ is_result r passed ]

-- `not required or n in required`
abbrev pub in_scope : List String → String → Bool
in_scope required n = is_empty required || contains required n

-- the tests behind `missing`, `failed`, `inconclusive`, `skipped` and `backed_pass`
abbrev pub counts_missing : List String → String → VerificationResult → Bool
counts_missing required n r = is_result r missing && contains required n

abbrev pub counts_failed : List String → String → VerificationResult → Bool
counts_failed required n r = is_result r failed && in_scope required n

abbrev pub counts_inconclusive : List String → String → VerificationResult → Bool
counts_inconclusive required n r =
    (is_result r inconclusive || is_result r stale) && in_scope required n

abbrev pub counts_skipped : List String → String → VerificationResult → Bool
counts_skipped required n r = is_result r skipped && contains required n

abbrev pub counts_passed : String → VerificationResult → Bool
counts_passed n r = is_result r passed

unfoldable pub summarize : List String → Results → List String → Summary
unfolding names_where
summarize required results self_asserted_names = record {
  unbacked_self_assertions =
      sorted_set (filter (λ n. contains self_asserted_names n && is_absent results n) required);
  required = sorted_set required;
  missing =
      sorted_set
        (filter (is_absent results) required ++ names_where (counts_missing required) results);
  failed = sorted_set (names_where (counts_failed required) results);
  inconclusive = sorted_set (names_where (counts_inconclusive required) results);
  skipped = sorted_set (names_where (counts_skipped required) results);
  passed = sorted_set (names_where counts_passed results);
}

-- the ladder of `if`s that picks the status
unfoldable pub status_of : List String → Results → Summary → ProofStatus
status_of required results s =
    if not (is_empty s.failed)
    then ProofStatus.failed
    else if not (is_empty s.missing) || not (is_empty s.skipped)
    then incomplete
    else if not (is_empty s.inconclusive)
    then ProofStatus.inconclusive
    else if not (is_empty required) && all (is_passed results) required
    then verified
    else if is_empty required && not (is_empty s.passed) && all (λ e. is_result e.1 passed) results
    then verified
    else incomplete

-- what follows the loop
unfoldable pub conclude : List String → Results → List String → ProofStatus × Summary
conclude required results self_asserted_names =
    let s = summarize required results self_asserted_names in (status_of required results s, s)

-- `required_verifiers or []`, after the test of its names
unfoldable pub required_names : Option (List String) → Result (List String)
required_names none = ok []
required_names (some names) = do raise_if (any is_blank names) value_error; ok names

unfoldable pub evaluate_status :
    List Verification → Option (List String) → Result (ProofStatus × Summary)
evaluate_status verifications required_verifiers = do
  required ← required_names required_verifiers
  c ← collect verifications (record { by_verifier = []; self_asserted_names = [] })
  ok (conclude required (worst_results c.by_verifier) c.self_asserted_names)
