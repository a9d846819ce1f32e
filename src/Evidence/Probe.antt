-- ===== src/Evidence/Probe.antt =====
-- The mutation and determinism probes of evidence.py.
--
-- What the file system and the runner do is a `World`, since `run_mutation_probe` takes the runner
-- from its caller and works on a copy of the tree. A check is known by its name, which is not empty.
-- The time of the run is left out.
mod Loop
pub mod Bound
use causal_continuity_engine.Prelude.{
  ℕ, String, Bool, true, false, not, ◌&&◌, ◌==◌, string_eq, ltb, if◌then◌else◌, List, [], ◌∷◌, ◌++◌,
  Option, none, some, any, all, filter, is_empty, contains, insert, length,
}
use causal_continuity_engine.Proof.Status.{
  VerificationResult, passed, failed, inconclusive, is_result,
}

-- `MUTATIONS`
pub data Mutation : Type 0 where
  absent truncate : Mutation

abbrev pub default_mutations : List Mutation
default_mutations = absent ∷ truncate ∷ []

-- what `_apply_mutation` did: its result, `SandboxEscape` or `OSError`
pub data Application : Type 0 where
  applied not_present escaped os_error : Application

-- The tree's copies and the runs of the checks on them; a run that raises has no result.
pub record World : Type 0 where
  pub baseline_copied : Bool
  pub baseline_run : String → Option VerificationResult
  pub copied : String → Mutation → Bool
  pub apply : String → Mutation → Application
  pub run : String → Mutation → String → Option VerificationResult

-- the `why` of a report's entries
pub data Why : Type 0 where
  invalid_declaration not_copied baseline_red : Why
  refused could_not_mutate absent_at_probe survived : Why
  crashed : List String → Why

pub data ProbeError : Type 0 where
  malformed_artifacts no_artifacts no_checks no_workspace baseline_not_passed : ProbeError

pub record Detection : Type 0 where
  pub artifact : String
  pub mutation : Mutation
  pub noticed_by : String

-- an entry of `undetected` or `inconclusive`; the artifact and mutation are missing before the loop
pub record Miss : Type 0 where
  pub target : Option (String × Mutation)
  pub why : Why

-- `MutationReport`
pub record MutationReport : Type 0 where
  pub artifacts : List String
  pub detected : List Detection
  pub undetected : List Miss
  pub inconclusive_runs : List Miss
  pub baseline : List (String × VerificationResult)
  pub error : Option ProbeError

abbrev pub is_none {ℓ} : {A : Type ℓ} → Option A → Bool
is_none none = true
is_none (some a) = false

-- `result == "passed"`
abbrev pub is_green : String × VerificationResult → Bool
is_green entry = is_result passed entry.1

-- `MutationReport.bound`
unfoldable pub bound : MutationReport → Bool
bound r =
    not (is_empty r.artifacts)
    && not (is_empty r.baseline)
    && all is_green r.baseline
    && not (is_empty r.detected)
    && is_empty r.undetected
    && is_empty r.inconclusive_runs
    && is_none r.error

abbrev pub empty_report : List String → MutationReport
empty_report artifacts = record {
  artifacts = artifacts;
  detected = [];
  undetected = [];
  inconclusive_runs = [];
  baseline = [];
  error = none;
}

-- The runs of the checks on one mutated copy, up to the first failure.
pub data Observation : Type 0 where
  noticed : String → Observation
  unnoticed : (crashes : List String) → Observation
  raised : Observation

unfoldable pub observe :
    (String → Option VerificationResult) → List String → List String → Observation
observe run [] crashes = unnoticed crashes
observe run (spec ∷ specs) crashes = elim (run spec) [
  | none ↦ raised
  | some result ↦ elim result [
    | failed ↦ noticed spec
    | inconclusive ↦ observe run specs (crashes ++ spec ∷ [])
    | _ ↦ observe run specs crashes
  ]
]

-- the three kinds of entry that the loop's body appends
abbrev pub detect : String → Mutation → String → MutationReport → MutationReport
detect a m spec r = record r {
  detected = r.detected ++ (record { artifact = a; mutation = m; noticed_by = spec }) ∷ [];
}

abbrev pub miss : String → Mutation → Why → MutationReport → MutationReport
miss a m why r = record r {
  undetected = r.undetected ++ (record { target = some (a, m); why = why }) ∷ [];
}

abbrev pub undecided : String → Mutation → Why → MutationReport → MutationReport
undecided a m why r = record r {
  inconclusive_runs = r.inconclusive_runs ++ (record { target = some (a, m); why = why }) ∷ [];
}

abbrev pub record_observation : String → Mutation → Observation → MutationReport → MutationReport
record_observation a m (noticed spec) r = detect a m spec r
record_observation a m (unnoticed []) r = miss a m survived r
record_observation a m (unnoticed (c ∷ cs)) r = undecided a m (crashed (c ∷ cs)) r
record_observation a m raised r = undecided a m not_copied r

abbrev pub record_application :
    String → Mutation → Application → Observation → MutationReport → MutationReport
record_application a m escaped o r = miss a m refused r
record_application a m os_error o r = miss a m could_not_mutate r
record_application a m not_present o r = miss a m absent_at_probe r
record_application a m applied o r = record_observation a m o r

-- the body of the loop over artifacts and mutations
unfoldable pub probe_one : World → List String → String → Mutation → MutationReport → MutationReport
probe_one w specs a m r =
    if w.copied a m
    then record_application a m (w.apply a m) (observe (w.run a m) specs []) r
    else undecided a m not_copied r

-- the two loops
unfoldable pub probe_mutations :
    World → List String → String → List Mutation → MutationReport → MutationReport
probe_mutations w specs a [] r = r
probe_mutations w specs a (m ∷ ms) r = probe_mutations w specs a ms (probe_one w specs a m r)

unfoldable pub probe_artifacts :
    World → List String → List Mutation → List String → MutationReport → MutationReport
probe_artifacts w specs ms [] r = r
probe_artifacts w specs ms (a ∷ rest) r =
    probe_artifacts w specs ms rest (probe_mutations w specs a ms r)

-- the baseline runs: the results recorded, and whether every run returned
unfoldable pub run_baseline :
    (String → Option VerificationResult)
    → List String
    → List (String × VerificationResult)
    → List (String × VerificationResult) × Bool
run_baseline run [] seen = (seen, true)
run_baseline run (spec ∷ specs) seen = elim (run spec) [
  | none ↦ (seen, false)
  | some result ↦ run_baseline run specs (insert spec result seen)
]

abbrev pub abandoned : ProbeError → Why → MutationReport → MutationReport
abandoned e why r = record r {
  inconclusive_runs = r.inconclusive_runs ++ (record { target = none; why = why }) ∷ [];
  error = some e;
}

-- The part of `run_mutation_probe` that follows the baseline runs.
unfoldable pub probe_copies :
    World
    → List String
    → List Mutation
    → List (String × VerificationResult) × Bool
    → MutationReport
    → MutationReport
probe_copies w specs mutations base report =
    let started = record report { baseline = base.0 } in
    if not base.1
    then abandoned no_workspace not_copied started
    else if not (all is_green base.0)
    then abandoned baseline_not_passed baseline_red started
    else probe_artifacts w specs mutations report.artifacts started

-- `run_mutation_probe`, from the artifacts that `normalize_artifact_paths` gave
unfoldable pub run_mutation_probe :
    World → Option (List String) → (specs : List String) → List Mutation → MutationReport
run_mutation_probe w none specs mutations = record (empty_report []) {
  undetected = (record { target = none; why = invalid_declaration }) ∷ [];
  error = some malformed_artifacts;
}
run_mutation_probe w (some artifacts) specs mutations =
    let report = empty_report artifacts in
    if is_empty artifacts
    then record report { error = some no_artifacts }
    else if is_empty specs
    then record report { error = some no_checks }
    else if not w.baseline_copied
    then abandoned no_workspace not_copied report
    else probe_copies w specs mutations (run_baseline w.baseline_run specs []) report

-- `stable` of `run_determinism_probe`, on the results of its two runs
unfoldable pub is_stable : (first second : VerificationResult) → Bool
is_stable first second = is_result passed first && is_result passed second
