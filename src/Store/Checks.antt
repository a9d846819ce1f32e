-- ===== src/Store/Checks.antt =====
-- `_validate_stored_event` of store.py, which checks a row before the INSERT. The formats of
-- `event_id`, of the times and of the digests are not texts of the model: `new_id`, `utcnow`,
-- `sha256_hex` and the checks above the writer lock fix them.
use mathlib.Core.Option.{get_or}
use causal_continuity_engine.Prelude.{
  String, Bool, true, false, not, ◌&&◌, ◌==◌, string_eq, leb, List, [], ◌∷◌, Option, none, some,
  contains,
}
use causal_continuity_engine.Core.{is_public_identifier}
use causal_continuity_engine.Store.Rows.{Hashing, EventEntry, event, audit, Row}

-- `_EVENT_AUTHORITIES`
abbrev event_authorities : List String
event_authorities =
    "untrusted_content" ∷ "agent_inference" ∷ "agent_observed" ∷ "human_intent"
    ∷ "repository_authoritative" ∷ "verifier_authoritative" ∷ "human_decision" ∷ "tenant_policy"
    ∷ []

-- `_EVENT_ACTOR_TYPES`
abbrev is_actor_type : Option String → Bool
is_actor_type none = true
is_actor_type (some kind) = contains ("human" ∷ "agent" ∷ "service" ∷ []) kind

-- `_EVENT_CAPTURE_MODES`
abbrev event_capture_modes : List String
event_capture_modes = "metadata_only" ∷ "redacted" ∷ "full" ∷ []

abbrev is_nonempty : String → Bool
is_nonempty s = not (s == "")

module _ (h : Hashing) where
  open h use {Digest, digest_eq, Text, empty_text, sha256_hex}

  -- the fields of a stored event, but for its payload
  unfoldable pub is_event_entry : EventEntry Digest → Bool
  is_event_entry e =
      is_public_identifier e.tenant_id
      && is_public_identifier e.project_id
      && is_nonempty e.source_type
      && is_nonempty e.idempotency_key
      && is_nonempty e.sensitivity
      && is_actor_type e.actor_type
      && contains event_authorities e.authority
      && contains event_capture_modes e.capture_mode
      && e.schema_version == "cce.event.v1"
      && leb 1 e.seq

  -- the commitment to the payload; a row without one does not authenticate it
  unfoldable pub is_committed : Option Text → Option Digest → Bool
  is_committed payload none = false
  is_committed payload (some d) = digest_eq.beq (sha256_hex (get_or payload empty_text)) d

  -- `_validate_stored_event`
  unfoldable pub is_stored_event : Row Digest Text → Bool
  is_stored_event row = elim row.entry [
    | audit e ↦ false
    | event e ↦ is_event_entry e && is_committed row.payload e.stored_payload_digest
  ]
