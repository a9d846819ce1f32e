-- ===== src/Memory/Rows.antt =====
-- The table of tier assignments, in memory.py, and what the module uses of its surroundings.
use causal_continuity_engine.Prelude.{
  ℕ, String, Bool, false, not, ◌==◌, nat_eq, string_eq, List, Option, none, some, Result, ok, ◌>>=◌,
  ◌>>◌, raise_if, permission_error,
}
use causal_continuity_engine.Graph.Rows.{Host, NodeRow, Tables, or_else}
use causal_continuity_engine.Graph.Nodes.{get}
use causal_continuity_engine.Invalidation.Writes.{unless_missing}

-- `TIERS`
pub data Tier : Type 0 where
  l0 l1 l2 l3 : Tier

abbrev tier_code : Tier → ℕ
tier_code Tier.l0 = 0
tier_code Tier.l1 = 1
tier_code Tier.l2 = 2
tier_code Tier.l3 = 3

-- `==` on tiers
abbrev pub same_tier : Tier → Tier → Bool
same_tier a b = tier_code a == tier_code b

-- `held == tier`, where nothing may be held
abbrev pub is_tier : Tier → Option Tier → Bool
is_tier tier none = false
is_tier tier (some held) = same_tier held tier

pub data Shelving : Type 0 where
  promoted demoted : Shelving

module _ (host : Host) where
  open host use {Time}

  -- a row of `memory_assignments`; `seq` is its place
  pub record Assignment : Type 0 where
    pub project_id : String
    pub node_id : String
    pub tier : Tier
    pub op : Shelving
    pub actor : String
    pub reason : Option String
    pub at : Time

  -- the graph's tables and the assignments
  pub record Shelves : Type 0 where
    pub tables : Tables host
    pub assignments : List Assignment

  -- the fields of `Memory`, with the graph's `may_mandate` and the check of human text
  pub record Keeper : Type 0 where
    pub tenant_id : Option String
    pub may_mandate : NodeRow host → Bool
    pub is_human_text : String → Bool

  abbrev pub are_apart : Option String → Option String → Bool
  are_apart none given = false
  are_apart (some bound) none = false
  are_apart (some bound) (some given) = not (given == bound)

  module _ (keeper : Keeper) where
    -- `_effective_tenant`
    abbrev pub effective_tenant : Option String → Result (Option String)
    effective_tenant tenant_id =
        raise_if (are_apart keeper.tenant_id tenant_id) permission_error
        >> ok (or_else keeper.tenant_id tenant_id)

    -- `_require_project`
    abbrev pub require_own_project : String → Tables host → Result (Unit {0})
    require_own_project project_id db = elim keeper.tenant_id [
      | none ↦ ok tt
      | some bound ↦
          unless_missing permission_error
            (get host project_id (some bound) (some project_id) (some "project") db)
          >>= λ _. ok tt
    ]

    -- `_require_node`
    abbrev pub require_node : String → String → Tables host → Result (NodeRow host)
    require_node project_id id db = require_own_project project_id db >>= λ _.
        unless_missing permission_error (get host id keeper.tenant_id (some project_id) none db)
