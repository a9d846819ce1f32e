-- ===== src/Proof/Runs.antt =====
-- `detect_stale` on concrete inputs.
use causal_continuity_engine.Prelude.{String, List, [], ◌∷◌, some, any, ◌≡◌}
use causal_continuity_engine.Proof.Stale.{Input, moved, detect_stale, detect_stale-moved}

abbrev inputs : List Input
inputs =
    (record { name = "table.csv"; digest = "d1"; kind = some "artifact" })
    ∷ (record { name = "ticket"; digest = "d2"; kind = some "declared" })
    ∷ []

abbrev current_inputs : List (String × String)
current_inputs = ("table.csv", "d3") ∷ []

detect_stale-moved_example :
    (detect_stale inputs current_inputs).stale ≡ any (moved current_inputs) inputs
detect_stale-moved_example = detect_stale-moved inputs current_inputs
