-- ===== src/Invalidation/Matrix.antt =====
-- The classification matrix of invalidation.py.
use causal_continuity_engine.Prelude.{ℕ, ◌≤◌, String, false, Option, ok, ◌≡◌, arith}
use causal_continuity_engine.Ontology.{Impact}
use causal_continuity_engine.Graph.Rows.{Host}
use causal_continuity_engine.Invalidation.Impact.{classify, graded}

-- how hard an impact is
abbrev pub rank : Impact → ℕ
rank impact = elim impact [
  | Impact.valid ↦ 0
  | Impact.review_required ↦ 1
  | Impact.blocked ↦ 2
  | Impact.invalidated ↦ 3
]

module _ (host : Host) where
  open host use {Float, lt, tenths, hundredths}

  -- the second float is not below a bound that the first reaches
  abbrev pub IsAtLeast : Float → Float → Type 0
  IsAtLeast x y = (bound : Float) → lt x bound ≡ false → lt y bound ≡ false

  classify-graded :
      (s : Float) (c : Option String) (f : Float) (i : Impact)
      → classify host s c f ≡ ok i
      → i ≡ graded host s c f
  unfolding classify
  classify-graded s c f i h = ground arith

  graded_monotone :
      (s t : Float) (c : Option String) (f g : Float)
      → IsAtLeast s t
      → IsAtLeast f g
      → rank (graded host s c f) ≤ rank (graded host t c g)
  unfolding graded
  graded_monotone s t c f g stronger surer =
      ground (arith, stronger (hundredths 75), stronger (hundredths 45), surer (tenths 7))

  -- A dependent that is reached with no less strength, by a trigger with no less confidence, is hit
  -- no less hard, whatever its criticality.
  pub classify_monotone :
      (s t : Float) (c : Option String) (f g : Float) (i j : Impact)
      → IsAtLeast s t
      → IsAtLeast f g
      → classify host s c f ≡ ok i
      → classify host t c g ≡ ok j
      → rank i ≤ rank j
  classify_monotone s t c f g i j stronger surer h k =
      rw (classify-graded s c f i h, classify-graded t c g j k)
        (graded_monotone s t c f g stronger surer)
