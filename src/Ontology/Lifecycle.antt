-- ===== src/Ontology/Lifecycle.antt =====
-- The assumption lifecycle of ontology.py as a step relation: which states can follow which.
use causal_continuity_engine.Prelude.{
  Bool, true, List, [], ◌∷◌, In, contains, ◌≡◌, ◌≢◌, ◌↔◌, ◌⊎◌, inl, inr, refl, sym, subst, ◌∙◌,
  arith,
}
use causal_continuity_engine.Ontology.{
  Status, proposed, supported, active, uncertain, invalidated, resolved, superseded, transitions,
  is_valid_transition, status_beq, status_beq_iff, status_eq,
}

-- `ASSUMPTION_STATES`
abbrev pub assumption_states : List Status
assumption_states =
    proposed ∷ supported ∷ active ∷ uncertain ∷ invalidated ∷ resolved ∷ superseded ∷ []

abbrev pub is_assumption_state : Status → Bool
is_assumption_state s = contains assumption_states s

-- A history of accepted transitions, with the statuses that were entered, latest first.
pub data History (s : Status) : List Status → Status → Type 0 where
  here : History s [] s
  step :
      {t u : Status} {seen : List Status}
      → History s seen t
      → is_valid_transition t u ≡ true
      → History s (u ∷ seen) u

-- An accepted transition out of a lifecycle state changes nothing or follows the table.
transition_cases :
    (s t : Status) → is_valid_transition s t ≡ true → (s ≡ t) ⊎ (contains (transitions s) t ≡ true)
unfolding is_valid_transition
transition_cases s t h = ground (arith, status_beq_iff s t)

listed-IsState : (s t : Status) → contains (transitions s) t ≡ true → is_assumption_state t ≡ true
unfolding transitions status_beq
listed-IsState proposed t h = ground arith
listed-IsState supported t h = ground arith
listed-IsState active t h = ground arith
listed-IsState uncertain t h = ground arith
listed-IsState invalidated t h = ground arith
listed-IsState resolved t h = ground arith
listed-IsState _ t h = ground arith

listed-ne-proposed : (s t : Status) → contains (transitions s) t ≡ true → t ≢ proposed
unfolding transitions status_beq
listed-ne-proposed proposed t h = ground arith
listed-ne-proposed supported t h = ground arith
listed-ne-proposed active t h = ground arith
listed-ne-proposed uncertain t h = ground arith
listed-ne-proposed invalidated t h = ground arith
listed-ne-proposed resolved t h = ground arith
listed-ne-proposed _ t h = ground arith

-- A transition accepted in a lifecycle state leads to a lifecycle state, and never to `proposed`
-- unless the assumption is `proposed` already.
pub is_valid_transition-IsState :
    (s t : Status)
    → is_assumption_state s ≡ true
    → is_valid_transition s t ≡ true
    → (is_assumption_state t ≡ true) × (t ≡ proposed → s ≡ proposed)
is_valid_transition-IsState s t known h = elim (transition_cases s t h) [
  | inl same ↦ (subst (λ u. is_assumption_state u ≡ true) same known, λ e. same ∙ e)
  | inr listed ↦ (listed-IsState s t listed, λ e. absurd (listed-ne-proposed s t listed e))
]

-- Contradicting evidence is accepted in every lifecycle state but `superseded`.
pub is_valid_transition-invalidated :
    (s : Status)
    → is_assumption_state s ≡ true
    → (is_valid_transition s invalidated ≡ true) ↔ (s ≢ superseded)
unfolding is_valid_transition
is_valid_transition-invalidated superseded known = ground arith
is_valid_transition-invalidated proposed known = ground arith
is_valid_transition-invalidated _ known = ground arith

superseded_next : (t : Status) → is_valid_transition superseded t ≡ true → superseded ≡ t
unfolding is_valid_transition
superseded_next t h = ground (arith, status_beq_iff superseded t)

-- Every history that starts in `superseded` stays there.
pub superseded_absorbs :
    {seen : List Status} {t : Status} → History superseded seen t → superseded ≡ t
superseded_absorbs here = refl
superseded_absorbs (step {t} {u} p h) =
    superseded_next u (subst (λ s. is_valid_transition s u ≡ true) (sym (superseded_absorbs p)) h)

-- The statuses of an assumption that may drive work.
abbrev pub is_standing : Status → Bool
is_standing s = contains (proposed ∷ supported ∷ active ∷ uncertain ∷ []) s

invalidated-not-standing : is_standing invalidated ≡ true → ⊥
unfolding status_beq
invalidated-not-standing h = cc

listed_standing :
    (t u : Status)
    → contains (transitions t) u ≡ true
    → is_standing u ≡ true
    → (is_standing t ≡ true) ⊎ (t ≡ resolved)
unfolding transitions status_beq
listed_standing proposed u h s = inl refl
listed_standing supported u h s = inl refl
listed_standing active u h s = inl refl
listed_standing uncertain u h s = inl refl
listed_standing resolved u h s = inr refl
listed_standing invalidated u h s = ground arith
listed_standing _ u h s = ground arith

-- Standing is entered from standing or from `resolved` alone.
entry :
    (t u : Status)
    → is_valid_transition t u ≡ true
    → is_standing u ≡ true
    → (is_standing t ≡ true) ⊎ (t ≡ resolved)
entry t u h s = elim (transition_cases t u h) [
  | inl same ↦ inl (subst (λ v. is_standing v ≡ true) (sym same) s)
  | inr listed ↦ listed_standing t u listed s
]

entered_resolved :
    {seen : List Status} {t : Status} → History invalidated seen t → t ≡ resolved → In resolved seen
entered_resolved here e = cc
entered_resolved (step p h) e = inl (sym e)

-- Every sequence of transitions that `is_valid_transition` accepts, and that leads from
-- `invalidated` to a status that may drive work, passes through `resolved`.
-- The release of an invalidation, which invalidation.py calls deliberately not a transition of the
-- lifecycle, restores the recorded status without asking and is not such a sequence.
pub standing_needs_resolved :
    {seen : List Status} {t : Status}
    → History invalidated seen t
    → is_standing t ≡ true
    → In resolved seen
standing_needs_resolved here h = absurd (invalidated-not-standing h)
standing_needs_resolved (step {t} {u} p h) s = elim (entry t u h s) [
  | inl before ↦ inr (standing_needs_resolved p before)
  | inr at ↦ inr (entered_resolved p at)
]
