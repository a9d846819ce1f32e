-- ===== src/Proof/Stale.antt =====
-- `detect_stale` of proof.py: the inputs of an envelope against the current digests.
--
-- A digest is its text; an input without a `kind` has `none`. The texts of the report are left out.
use causal_continuity_engine.Prelude.{
  String, Bool, false, not, ◌||◌, ◌==◌, string_eq, if◌then◌else◌, List, [], ◌∷◌, Option, none, some,
  any, is_empty, lookup, ◌≡◌, refl, arith,
}

pub record Input : Type 0 where
  pub name : String
  pub digest : String
  pub kind : Option String

-- an entry of `changed_inputs`
pub record Change : Type 0 where
  pub name : String
  pub recorded : String
  pub current : Option String

-- `stale`, `changed_inputs` and `untracked_inputs`
pub record Staleness : Type 0 where
  pub stale : Bool
  pub changed_inputs : List Change
  pub untracked_inputs : List Input

abbrev pub is_artifact : Option String → Bool
is_artifact none = false
is_artifact (some k) = k == "artifact"

abbrev pub add_change : Input → Option String → List Change × List Input → List Change × List Input
add_change i current (changed, untracked) =
    ((record { name = i.name; recorded = i.digest; current = current }) ∷ changed, untracked)

abbrev pub add_untracked : Input → List Change × List Input → List Change × List Input
add_untracked i (changed, untracked) = (changed, i ∷ untracked)

-- what one input adds to the lists of the inputs after it
abbrev pub compare_input :
    Input → Option String → List Change × List Input → List Change × List Input
compare_input i none later =
    if is_artifact i.kind then add_change i none later else add_untracked i later
compare_input i (some current) later =
    if not (current == i.digest) then add_change i (some current) later else later

-- the loop
unfoldable pub compare_inputs : List Input → List (String × String) → List Change × List Input
compare_inputs [] current_inputs = ([], [])
compare_inputs (i ∷ inputs) current_inputs =
    compare_input i (lookup i.name current_inputs) (compare_inputs inputs current_inputs)

-- `detect_stale`
unfoldable pub detect_stale : List Input → List (String × String) → Staleness
detect_stale inputs current_inputs =
    let lists = compare_inputs inputs current_inputs in
    record { stale = not (is_empty lists.0); changed_inputs = lists.0; untracked_inputs = lists.1 }

-- an input that moved: its digest differs, or it is an artifact that nobody reports
abbrev pub moved : List (String × String) → Input → Bool
moved current_inputs i = elim (lookup i.name current_inputs) [
  | none ↦ is_artifact i.kind
  | some current ↦ not (current == i.digest)
]

compare_input-moved :
    (i : Input) (o : Option String) (later : List Change × List Input)
    → not (is_empty (compare_input i o later).0) ≡ (
        (elim o [ none ↦ is_artifact i.kind | some current ↦ not (current == i.digest) ])
        || not (is_empty later.0))
compare_input-moved i none later = ground arith
compare_input-moved i (some current) later = ground arith

compare_inputs-moved :
    (inputs : List Input) (current_inputs : List (String × String))
    → not (is_empty (compare_inputs inputs current_inputs).0) ≡ any (moved current_inputs) inputs
unfolding compare_inputs
compare_inputs-moved [] current_inputs = refl
compare_inputs-moved (i ∷ inputs) current_inputs = ground (
  arith,
  compare_inputs-moved inputs current_inputs,
  compare_input-moved i (lookup i.name current_inputs) (compare_inputs inputs current_inputs),
)

-- A proof is reported stale exactly when some input's current digest differs from the recorded one
-- or some recorded artifact is no longer reported; an input of another kind that is not reported
-- does not make it stale.
pub detect_stale-moved :
    (inputs : List Input) (current_inputs : List (String × String))
    → (detect_stale inputs current_inputs).stale ≡ any (moved current_inputs) inputs
unfolding detect_stale
detect_stale-moved inputs current_inputs = compare_inputs-moved inputs current_inputs
