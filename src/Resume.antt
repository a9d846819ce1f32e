-- ===== src/Resume.antt =====
-- causal_continuity_engine/resume.py: how a packet is fitted into its token budget, `_fit_budget`.
pub mod Trimmed
pub mod Fits
mod Runs
use causal_continuity_engine.Prelude.{
  ℕ, zero, suc, ◌-◌, String, Bool, true, false, ◌==◌, nat_eq, List, [], ◌∷◌, ◌++◌, length, take,
  leb, if◌then◌else◌,
}

-- the keys of `trim_order`
pub data Trimmable : Type 0 where
  recent_context verified_progress environment : Trimmable

abbrev pub trim_order : List Trimmable
trim_order = Trimmable.recent_context ∷ Trimmable.verified_progress ∷ Trimmable.environment ∷ []

-- an entry of `omissions` with the reason `token_budget`
pub record Omission : Type 0 where
  pub section : Trimmable
  pub count : ℕ

-- JSON that is not a list, and the rest of a packet
module _ (Json Rest : Type 0) where
  pub data Section : Type 0 where
    items : List Json → Section
    whole : Json → Section

  -- a packet: the sections that may be trimmed, and all others
  pub record Packet : Type 0 where
    pub rest : Rest
    pub recent : Section
    pub progress : Section
    pub surroundings : Section

  -- `packet.get(key)`
  abbrev pub section_of : Trimmable → Packet → Section
  section_of Trimmable.recent_context p = p.recent
  section_of Trimmable.verified_progress p = p.progress
  section_of Trimmable.environment p = p.surroundings

  -- `{**packet, key: kept}`
  abbrev pub with_section : Trimmable → Section → Packet → Packet
  with_section Trimmable.recent_context s p = record p { recent = s }
  with_section Trimmable.verified_progress s p = record p { progress = s }
  with_section Trimmable.environment s p = record p { surroundings = s }

  -- `_tokens` of a packet and its list of omissions, which grows while sections are trimmed
  module _ (tokens : Packet → List Omission → ℕ) (budget : ℕ) where
    abbrev pub fits : Packet → List Omission → Bool
    fits p omissions = leb (tokens p omissions) budget

    -- how many of the first entries stay after the pops
    unfoldable pub kept_length : Trimmable → Packet → List Omission → List Json → ℕ → ℕ
    kept_length key p omissions l zero = zero
    kept_length key p omissions l (suc n) =
        elim (fits (with_section key (items (take (suc n) l)) p) omissions) [
          | true ↦ suc n
          | false ↦ kept_length key p omissions l n
        ]

    -- the packet with a section cut to its first entries, and what was omitted
    abbrev pub cut : Trimmable → Packet → List Json → ℕ → Packet × List Omission
    cut key p l n = if n == length l then (p, []) else (
      with_section key (items (take n l)) p,
      record { section = key; count = length l - n } ∷ [],
    )

    -- one round of the loop
    unfoldable pub trim : Trimmable → Packet → List Omission → Packet × List Omission
    trim key p omissions = elim (section_of key p) [
      | whole j ↦ (p, [])
      | items l ↦ cut key p l (kept_length key p omissions l (length l))
    ]

    -- the loop
    unfoldable pub trim_all : List Trimmable → Packet → List Omission → Packet × List Omission
    trim_all [] p omissions = (p, omissions)
    trim_all (key ∷ keys) p omissions = elim (fits p omissions) [
      | true ↦ (p, omissions)
      | false ↦ trim_all keys (trim key p omissions).0 (omissions ++ (trim key p omissions).1)
    ]

    -- `_fit_budget`: the packet and its omissions
    unfoldable pub fit_budget : Packet → List Omission → Packet × List Omission
    fit_budget = trim_all trim_order
