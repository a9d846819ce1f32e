-- ===== src/Resume/Runs.antt =====
-- A concrete run of resume.py's `_fit_budget`, where each entry and each omission costs one token.
use causal_continuity_engine.Prelude.{ℕ, ◌+◌, ◌≤◌, String, List, [], ◌∷◌, length, ◌≡◌, ◌⊎◌, refl}
use causal_continuity_engine.Resume.{
  Trimmable, Omission, Section, items, whole, Packet, kept_length, trim, trim_all, fit_budget,
}
use causal_continuity_engine.Resume.Trimmed.{IsTrimmed, IsShortened}
use causal_continuity_engine.Resume.Fits.{fit_budget_fits}

abbrev packet : Packet String (List String)
packet = record {
  rest = "mission" ∷ "constraint" ∷ [];
  recent = items ("note" ∷ "remark" ∷ []);
  progress = items ("done" ∷ "tested" ∷ []);
  surroundings = whole "linux";
}

abbrev cost : Section String (List String) → ℕ
cost (items l) = length l
cost (whole j) = 1

abbrev tokens : Packet String (List String) → List Omission → ℕ
tokens p omissions =
    length omissions + (length p.rest + (cost p.recent + (cost p.progress + cost p.surroundings)))

-- Both entries of the recent context go, and one of the progress. The packet fits until the omission
-- of the last is recorded, which is the token that it has too many.
fitted : fit_budget String (List String) tokens 5 packet [] ≡ (
  record packet { recent = items []; progress = items ("done" ∷ []) },
  record { section = Trimmable.recent_context; count = 2 }
      ∷ record { section = Trimmable.verified_progress; count = 1 }
      ∷ [],
)
unfolding fit_budget trim_all trim kept_length
fitted = refl

fit_budget_fits_example :
    IsTrimmed String
      (List String)
      packet
      (fit_budget String (List String) tokens 5 packet []).0
      []
      (fit_budget String (List String) tokens 5 packet []).1
    × ((tokens
            (fit_budget String (List String) tokens 5 packet []).0
            (fit_budget String (List String) tokens 5 packet []).1
          ≤ 5)
        ⊎ ((key : Trimmable)
            → IsShortened String
                (List String)
                key
                packet
                []
                (fit_budget String (List String) tokens 5 packet []).1))
fit_budget_fits_example = fit_budget_fits String (List String) tokens 5 packet []
