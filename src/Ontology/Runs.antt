-- ===== src/Ontology/Runs.antt =====
-- The lifecycle theorems at concrete histories.
use causal_continuity_engine.Prelude.{[], ◌∷◌, In, refl}
use causal_continuity_engine.Ontology.{
  active, uncertain, invalidated, resolved, is_valid_transition,
}
use causal_continuity_engine.Ontology.Lifecycle.{History, here, step, standing_needs_resolved}

reopened : History invalidated (active ∷ uncertain ∷ resolved ∷ []) active
unfolding is_valid_transition
reopened = step (step (step here refl) refl) refl

standing_needs_resolved_example : In resolved (active ∷ uncertain ∷ resolved ∷ [])
unfolding is_valid_transition
standing_needs_resolved_example = standing_needs_resolved reopened refl
