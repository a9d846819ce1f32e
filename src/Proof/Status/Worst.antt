-- ===== src/Proof/Status/Worst.antt =====
-- `_worst` of proof.py: a failure among a verifier's reports stands, and only an unbroken run of
-- passes is a pass.
use causal_continuity_engine.Prelude.{ltb, if◌then◌else◌, List, [], ◌∷◌, In, All, ◌≡◌, ◌↔◌, arith}
use causal_continuity_engine.Proof.Status.{VerificationResult, passed, failed, severity, worst_from}

-- The worst report is a failure exactly when a failure was reported.
pub worst_from-failed :
    (best : VerificationResult) (rs : List VerificationResult)
    → (worst_from best rs ≡ failed) ↔ In failed (best ∷ rs)
unfolding worst_from severity
worst_from-failed best [] = ground arith
worst_from-failed best (r ∷ rs) =
    ground (arith, worst_from-failed (if ltb (severity r) (severity best) then r else best) rs)

-- The worst report is a pass exactly when every report passed.
pub worst_from-passed :
    (best : VerificationResult) (rs : List VerificationResult)
    → (worst_from best rs ≡ passed) ↔ All (λ r. r ≡ passed) (best ∷ rs)
unfolding worst_from severity
worst_from-passed best [] = ground arith
worst_from-passed best (r ∷ rs) =
    ground (arith, worst_from-passed (if ltb (severity r) (severity best) then r else best) rs)
