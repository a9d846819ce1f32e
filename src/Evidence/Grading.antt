-- ===== src/Evidence/Grading.antt =====
-- `grade_evidence` of evidence.py.
--
-- A cap keeps its kind and the names that its text lists; the reasons of a grade are one of `Reason`.
-- A field that an outcome or a control does not have is `none`; a probe without `stable` is not
-- stable.
pub mod Steps
pub mod Top
use causal_continuity_engine.Prelude.{
  ℕ, String, Bool, true, false, not, ◌&&◌, ◌||◌, ◌==◌, string_eq, ltb, leb, if◌then◌else◌, List, [],
  ◌∷◌, ◌++◌, Option, none, some, any, all, filter, is_empty, contains, lookup, length, map, Result,
  ok, err, ◌>>=◌, ◌>>◌, raise_if, value_error,
}
use causal_continuity_engine.Evidence.Probe.{MutationReport, ProbeError, bound}

-- `GRADES`
pub data Grade : Type 0 where
  a b c d f : Grade

unfoldable pub index : Grade → ℕ
index a = 0
index b = 1
index c = 2
index d = 3
index f = 4

-- an entry of `outcomes`, of `controls` and of `determinism`
pub record Outcome : Type 0 where
  pub verifier : Option String
  pub result : Option String
  pub source : Option String

abbrev pub Controls : Type 0
Controls = List (String × Option String)

pub record Stability : Type 0 where
  pub stable : Bool
  pub results : List String

abbrev pub Probes : Type 0
Probes = List (String × Stability)

pub data Detail : Type 0 where
  probe_error : ProbeError → Detail
  survived left_undetermined : ℕ → Detail

pub data Cap : Type 0 where
  unpinned : String → Cap
  unbound : Detail → Cap
  control_unmet control_missing unstable unprobed : List String → Cap
  no_mutation_probe : Cap

pub data Reason : Type 0 where
  no_result not_passed not_executed : String → Reason
  none_required shown : Reason

-- `EvidenceGrade`
pub record EvidenceGrade : Type 0 where
  pub grade : Grade
  pub reasons : List Reason
  pub caps : List Cap

-- `EvidenceGrade.at_least`
unfoldable pub at_least : EvidenceGrade → Grade → Bool
at_least g minimum = leb (index g.grade) (index minimum)

abbrev pub is_text : Option String → String → Bool
is_text none t = false
is_text (some s) t = s == t

-- `by_name.get(name)`: the last outcome of the name
unfoldable pub by_name : List Outcome → String → Option Outcome
by_name [] name = none
by_name (o ∷ outcomes) name =
    let later = by_name outcomes name in
    elim later [ some found ↦ some found | none ↦ if is_text o.verifier name then some o else none ]

-- why a required check's evidence does not exist
abbrev pub fault : Option Outcome → String → Option Reason
fault none name = some (no_result name)
fault (some o) name =
    if not (is_text o.result "passed")
    then some (not_passed name)
    else if not (is_text o.source "executed")
    then some (not_executed name)
    else none

-- the loop of the F conditions
unfoldable pub first_fault : List Outcome → List String → Option Reason
first_fault outcomes [] = none
first_fault outcomes (name ∷ names) =
    let rest = first_fault outcomes names in
    elim (fault (by_name outcomes name) name) [ some r ↦ some r | none ↦ rest ]

-- `cap`
unfoldable pub cap : Grade → Cap → EvidenceGrade → EvidenceGrade
cap at why g = record g {
  caps = g.caps ++ why ∷ [];
  grade = if ltb (index g.grade) (index at) then at else g.grade;
}

abbrev pub cap_if : Bool → Grade → Cap → EvidenceGrade → EvidenceGrade
cap_if true at why g = cap at why g
cap_if false at why g = g

unfoldable pub cap_unpinned : List String → List String → EvidenceGrade → EvidenceGrade
cap_unpinned unpinned_required [] g = g
cap_unpinned unpinned_required (name ∷ names) g =
    cap_unpinned unpinned_required names
      (cap_if (contains unpinned_required name) d (unpinned name) g)

-- `mutation.error`, or what the lists of the report say
abbrev pub detail : MutationReport → Detail
detail m = elim m.error [
  | some e ↦ probe_error e
  | none ↦
      if is_empty m.undetected
      then left_undetermined (length m.inconclusive_runs)
      else survived (length m.undetected)
]

abbrev pub cap_unbound : Option MutationReport → EvidenceGrade → EvidenceGrade
cap_unbound none g = g
cap_unbound (some m) g = cap_if (not (bound m)) d (unbound (detail m)) g

-- `controls.get(n, {}).get("status")`
abbrev pub has_status : String → Controls → String → Bool
has_status status controls n = elim (lookup n controls) [ none ↦ false | some s ↦ is_text s status ]

abbrev pub cap_controls : Controls → List String → EvidenceGrade → EvidenceGrade
cap_controls controls required g =
    let missing = filter (λ n. not (has_status "held" controls n)) required in
    let unmet = filter (has_status "unmet" controls) missing in
    cap_if (not (is_empty missing)) c
      (if is_empty unmet then control_missing missing else control_unmet unmet) g

abbrev pub cap_unprobed : Option MutationReport → EvidenceGrade → EvidenceGrade
cap_unprobed none g = cap b no_mutation_probe g
cap_unprobed (some m) g = g

abbrev pub is_missing_probe : Probes → String → Bool
is_missing_probe determinism n = elim (lookup n determinism) [ none ↦ true | some p ↦ false ]

abbrev pub two_passes : List String → Bool
two_passes (x ∷ (y ∷ [])) = x == "passed" && y == "passed"
two_passes _ = false

abbrev pub is_unstable : Probes → String → Bool
is_unstable determinism n = elim (lookup n determinism) [
  | none ↦ false
  | some p ↦ not p.stable || not (two_passes p.results)
]

abbrev pub cap_determinism : Probes → List String → EvidenceGrade → EvidenceGrade
cap_determinism determinism required g =
    let missing = filter (is_missing_probe determinism) required in
    let unsteady = filter (is_unstable determinism) required in
    cap_if (not (is_empty missing)) b (unprobed missing)
      (cap_if (not (is_empty unsteady)) c (unstable unsteady) g)

-- the caps, in their order
unfoldable pub capped_grade :
    List String → Controls → Option MutationReport → Probes → List String → EvidenceGrade
capped_grade required controls mutation determinism unpinned_required =
    cap_determinism determinism required (
      cap_unprobed mutation (
        cap_controls controls required (
          cap_unbound mutation (
            cap_unpinned unpinned_required required
              (record { grade = a; reasons = []; caps = [] })))))

abbrev pub with_reason : EvidenceGrade → EvidenceGrade
with_reason g = elim g.grade [ a ↦ record g { reasons = g.reasons ++ shown ∷ [] } | _ ↦ g ]

abbrev pub failing : Reason → EvidenceGrade
failing r = record { grade = f; reasons = r ∷ []; caps = [] }

-- `verifier_names`: non-empty names, none twice
unfoldable pub verifier_names : List String → Bool
verifier_names [] = true
verifier_names (n ∷ names) = not (n == "") && not (contains names n) && verifier_names names

abbrev pub has_blank {ℓ} : {A : Type ℓ} → List (String × A) → Bool
has_blank entries = any (λ e. e.0 == "") entries

-- the grade of accepted arguments
unfoldable pub grade_accepted :
    List Outcome
    → List String
    → Controls
    → Option MutationReport
    → Probes
    → List String
    → EvidenceGrade
grade_accepted outcomes required controls mutation determinism unpinned_required =
    elim (first_fault outcomes required) [
      | some r ↦ failing r
      | none ↦
          if is_empty required
          then failing none_required
          else with_reason (capped_grade required controls mutation determinism unpinned_required)
    ]

-- `grade_evidence`
unfoldable pub grade_evidence :
    List Outcome
    → List String
    → Controls
    → Option MutationReport
    → Probes
    → List String
    → Result EvidenceGrade
grade_evidence outcomes required controls mutation determinism unpinned_required = do
  raise_if (not (verifier_names required)) value_error
  raise_if (has_blank controls) value_error
  raise_if (has_blank determinism) value_error
  raise_if (not (verifier_names unpinned_required)) value_error
  ok (grade_accepted outcomes required controls mutation determinism unpinned_required)
