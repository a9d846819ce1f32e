-- ===== src/Ontology.antt =====
-- causal_continuity_engine/ontology.py: the status names, the assumption state machine, the
-- authority order, the propagation edges and the autonomy ceiling.
pub mod Lifecycle
mod Runs
use causal_continuity_engine.Prelude.{
  ℕ, zero, suc, String, Bool, true, false, ◌||◌, ◌==◌, nat_eq, string_eq, List, [], ◌∷◌, contains,
  Option, none, some, ◌≡◌, ◌↔◌, refl, ap, arith, Eq, ==_sound, ==_refl, sym, ap₂, ◌∙◌, ◌&&◌,
  and-left, and-right, if◌then◌else◌,
}

-- Node statuses: the seven states of `ASSUMPTION_STATES`, the other statuses that the engine's code
-- names, and any other text.
pub data Status : Type 0 where
  proposed supported active uncertain invalidated resolved superseded : Status
  blocked quarantined verified accepted rejected failed : Status
  opened in_progress pending_confirmation : Status
  other : String → Status

status_code : Status → ℕ
status_code proposed = 0
status_code supported = 1
status_code active = 2
status_code uncertain = 3
status_code invalidated = 4
status_code resolved = 5
status_code superseded = 6
status_code blocked = 7
status_code quarantined = 8
status_code verified = 9
status_code accepted = 10
status_code rejected = 11
status_code failed = 12
status_code opened = 13
status_code in_progress = 14
status_code pending_confirmation = 15
status_code (other s) = 16

status_text : Status → String
status_text (other s) = s
status_text _ = ""

status_of_code : ℕ → String → Status
status_of_code zero s = proposed
status_of_code (suc zero) s = supported
status_of_code (suc (suc zero)) s = active
status_of_code (suc (suc (suc zero))) s = uncertain
status_of_code (suc (suc (suc (suc zero)))) s = invalidated
status_of_code (suc (suc (suc (suc (suc zero))))) s = resolved
status_of_code (suc (suc (suc (suc (suc (suc zero)))))) s = superseded
status_of_code (suc (suc (suc (suc (suc (suc (suc zero))))))) s = blocked
status_of_code (suc (suc (suc (suc (suc (suc (suc (suc zero)))))))) s = quarantined
status_of_code (suc (suc (suc (suc (suc (suc (suc (suc (suc zero))))))))) s = verified
status_of_code (suc (suc (suc (suc (suc (suc (suc (suc (suc (suc zero)))))))))) s = accepted
status_of_code (suc (suc (suc (suc (suc (suc (suc (suc (suc (suc (suc zero))))))))))) s = rejected
status_of_code (suc (suc (suc (suc (suc (suc (suc (suc (suc (suc (suc (suc zero)))))))))))) s =
    failed
status_of_code (suc (suc (suc (suc (suc (suc (suc (suc (suc (suc (suc (suc (suc zero)))))))))))))
      s =
    opened
status_of_code
      (suc (suc (suc (suc (suc (suc (suc (suc (suc (suc (suc (suc (suc (suc zero)))))))))))))) s =
    in_progress
status_of_code
      (suc (suc (suc (suc (suc (suc (suc (suc (suc (suc (suc (suc (suc (suc (suc zero)))))))))))))))
      s =
    pending_confirmation
status_of_code _ s = other s

status_of_code-status_code : (s : Status) → status_of_code (status_code s) (status_text s) ≡ s
unfolding status_of_code status_code status_text
status_of_code-status_code proposed = refl
status_of_code-status_code supported = refl
status_of_code-status_code active = refl
status_of_code-status_code uncertain = refl
status_of_code-status_code invalidated = refl
status_of_code-status_code resolved = refl
status_of_code-status_code superseded = refl
status_of_code-status_code blocked = refl
status_of_code-status_code quarantined = refl
status_of_code-status_code verified = refl
status_of_code-status_code accepted = refl
status_of_code-status_code rejected = refl
status_of_code-status_code failed = refl
status_of_code-status_code opened = refl
status_of_code-status_code in_progress = refl
status_of_code-status_code pending_confirmation = refl
status_of_code-status_code (other t) = refl

-- `current == new` on two status texts
unfoldable pub status_beq : Status → Status → Bool
unfolding status_code status_text
status_beq s t = status_code s == status_code t && status_text s == status_text t

status_beq_sound : (s t : Status) → status_beq s t ≡ true → s ≡ t
unfolding status_beq
status_beq_sound s t h =
    let same_code = ==_sound (status_code s) (status_code t) (and-left _ _ h) in
    let same_text = ==_sound (status_text s) (status_text t) (and-right _ _ h) in
    sym (status_of_code-status_code s)
    ∙ ap₂ status_of_code same_code same_text
    ∙ status_of_code-status_code t

status_beq_refl : (s : Status) → status_beq s s ≡ true
unfolding status_beq
status_beq_refl s = rw (==_refl (status_code s), ==_refl (status_text s))

pub status_beq_iff : (s t : Status) → (status_beq s t ≡ true) ↔ (s ≡ t)
status_beq_iff s t = (status_beq_sound s t, λ e. rw e (status_beq_refl t))

instance abbrev pub status_eq : Eq Status
status_eq = record { beq = status_beq; beq_iff = status_beq_iff }

-- `ASSUMPTION_TRANSITIONS.get(current, set())`
unfoldable pub transitions : Status → List Status
transitions proposed = supported ∷ active ∷ uncertain ∷ invalidated ∷ superseded ∷ resolved ∷ []
transitions supported = active ∷ uncertain ∷ invalidated ∷ superseded ∷ resolved ∷ []
transitions active = uncertain ∷ invalidated ∷ superseded ∷ resolved ∷ []
transitions uncertain = active ∷ supported ∷ invalidated ∷ superseded ∷ resolved ∷ []
transitions invalidated = resolved ∷ superseded ∷ []
transitions resolved = invalidated ∷ uncertain ∷ superseded ∷ []
transitions _ = []

-- `is_valid_transition(current, new)`
unfoldable pub is_valid_transition : Status → Status → Bool
unfolding transitions status_beq
is_valid_transition current new =
    if current == new then true else contains (transitions current) new

-- `AUTHORITY_ORDER`, lowest first, and texts outside it
pub data Authority : Type 0 where
  untrusted_content agent_inference agent_observed human_intent : Authority
  repository_authoritative verifier_authoritative human_decision tenant_policy : Authority
  unlisted : String → Authority

-- `authority_rank`: an authority outside the order ranks lowest
unfoldable pub authority_rank : Authority → ℕ
authority_rank untrusted_content = 0
authority_rank agent_inference = 1
authority_rank agent_observed = 2
authority_rank human_intent = 3
authority_rank repository_authoritative = 4
authority_rank verifier_authoritative = 5
authority_rank human_decision = 6
authority_rank tenant_policy = 7
authority_rank (unlisted s) = 0

-- `ENTITY_TYPES`
abbrev pub entity_types : List String
entity_types =
    "project" ∷ "event" ∷ "artifact" ∷ "claim" ∷ "assumption" ∷ "requirement" ∷ "constraint"
    ∷ "decision" ∷ "plan" ∷ "task" ∷ "action" ∷ "evidence" ∷ "verification" ∷ "session" ∷ "outcome"
    ∷ "failure" ∷ "skill" ∷ "evaluation" ∷ "actor" ∷ "invalidation" ∷ "checkpoint" ∷ []

-- `EDGE_TYPES`
abbrev pub edge_types : List String
edge_types =
    "derived_from" ∷ "supports" ∷ "contradicts" ∷ "assumes" ∷ "depends_on" ∷ "invalidates"
    ∷ "supersedes" ∷ "affects" ∷ "produces" ∷ "verifies" ∷ "accepted_by" ∷ "rejected_by"
    ∷ "resumed_from" ∷ "migrated_from" ∷ "replay_of" ∷ []

-- `PROPAGATION_EDGES`, the strengths in tenths
abbrev pub propagation_edges : List (String × ℕ)
propagation_edges =
    ("assumes", 10)
    ∷ ("depends_on", 9)
    ∷ ("derived_from", 8)
    ∷ ("supports", 6)
    ∷ ("verifies", 7)
    ∷ []

-- `CRITICALITY_LEVELS`
abbrev pub criticality_levels : List String
criticality_levels = "low" ∷ "medium" ∷ "high" ∷ "critical" ∷ []

-- `IMPACT_STATES`
pub data Impact : Type 0 where
  valid review_required blocked invalidated : Impact

-- `MVP_MAX_AUTONOMY`
abbrev pub mvp_max_autonomy : ℕ
mvp_max_autonomy = 3
