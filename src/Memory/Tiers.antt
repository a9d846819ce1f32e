-- ===== src/Memory/Tiers.antt =====
-- The tiers of memory, in memory.py: `promote`, `demote`, `demote_from_any_tier`, `tier_of`,
-- `tier_members` and `l0`. The audit entries are not of these tables.
use causal_continuity_engine.Prelude.{
  String, Bool, true, false, not, ◌&&◌, ◌==◌, string_eq, if◌then◌else◌, List, [], ◌∷◌, ◌++◌, map,
  filter, Option, none, some, contains, insert, Result, ok, err, ◌>>=◌, ◌>>◌, raise_if, value_error,
  runtime_error,
}
use causal_continuity_engine.Ontology.{Status, status_eq}
use causal_continuity_engine.Graph.Rows.{Host, NodeRow, Tables}
use causal_continuity_engine.Graph.Nodes.{get}
use causal_continuity_engine.Invalidation.Settle.Stored.{is_one_of}
use causal_continuity_engine.Memory.Rows.{
  Tier, same_tier, is_tier, Shelving, promoted, demoted, Assignment, Shelves, Keeper,
  effective_tenant, require_own_project, require_node,
}
use causal_continuity_engine.Memory.Provenance.{has_real_provenance}

-- the control types and the statuses that withhold control
abbrev pub control_types : List String
control_types = "requirement" ∷ "constraint" ∷ "decision" ∷ "assumption" ∷ "task" ∷ "claim" ∷ []

abbrev pub withheld : List Status
withheld =
    Status.invalidated
    ∷ Status.superseded
    ∷ Status.other "revoked"
    ∷ Status.other "withdrawn"
    ∷ Status.uncertain
    ∷ Status.blocked
    ∷ []

abbrev pub is_promotion : Shelving → Bool
is_promotion promoted = true
is_promotion demoted = false

module _ (host : Host) where
  open host use {Time}

  -- the tier that a row leaves its node in
  abbrev pub tier_left : Assignment host → Option Tier
  tier_left r = if is_promotion r.op then some r.tier else none

  -- the last row of the node
  unfoldable pub last_row : String → String → List (Assignment host) → Option (Assignment host)
  last_row project_id id [] = none
  last_row project_id id (r ∷ rest) = elim (last_row project_id id rest) [
    | some later ↦ some later
    | none ↦ if r.project_id == project_id && r.node_id == id then some r else none
  ]

  -- the tier of the node, by its last row
  abbrev pub assigned : String → String → List (Assignment host) → Option Tier
  assigned project_id id rows = elim (last_row project_id id rows) [
    | none ↦ none
    | some r ↦ tier_left r
  ]

  -- `state`, from the rows of the project in their order
  unfoldable pub shelve :
      String → List (Assignment host) → List (String × Option Tier) → List (String × Option Tier)
  shelve project_id [] state = state
  shelve project_id (r ∷ rest) state =
      shelve project_id rest
        (if r.project_id == project_id then insert r.node_id (tier_left r) state else state)

  module _ (keeper : Keeper host) where
    -- `_l0_is_binding`
    abbrev pub is_l0_binding : NodeRow host → Bool
    is_l0_binding node =
        not (contains control_types node.entity_type && is_one_of withheld node.status)
        && keeper.may_mandate node

    -- a node that is not barred from the tier
    abbrev pub is_in_force : Tier → NodeRow host → Bool
    is_in_force tier node =
        not (is_one_of (Status.quarantined ∷ []) node.status)
        && not (same_tier tier Tier.l0 && not (is_l0_binding node))

    -- an entry of `state` that is a member; `get` raises no other error
    abbrev pub is_member : String → Tier → Option String → Tables host → String × Option Tier → Bool
    is_member project_id tier tenant_id db x =
        is_tier tier x.1 && (elim (get host x.0 tenant_id (some project_id) none db) [
          | ok node ↦ is_in_force tier node
          | err e ↦ false
        ])

    -- `tier_of`
    unfoldable pub tier_of : String → String → Shelves host → Result (Option Tier)
    tier_of project_id id s = require_own_project host keeper project_id s.tables >>= λ _.
        ok (assigned project_id id s.assignments)

    -- `tier_members`
    unfoldable pub tier_members :
        String → Tier → Option String → Shelves host → Result (List String)
    tier_members project_id tier given s = do
      tenant_id ← effective_tenant host keeper given
      own ← require_own_project host keeper project_id s.tables
      ok (
          map (λ (x : String × Option Tier). x.0)
            (filter (is_member project_id tier tenant_id s.tables)
              (shelve project_id s.assignments [])))

    -- the rows of the members; `get` raises no error for them
    unfoldable pub read_members :
        String → Option String → Tables host → List String → List (NodeRow host)
    read_members project_id tenant_id db [] = []
    read_members project_id tenant_id db (id ∷ rest) =
        elim (get host id tenant_id (some project_id) none db) [
          | ok node ↦ node ∷ read_members project_id tenant_id db rest
          | err e ↦ read_members project_id tenant_id db rest
        ]

    -- `l0`
    unfoldable pub pinned_control :
        String → Option String → Shelves host → Result (List (NodeRow host))
    pinned_control project_id given s = do
      tenant_id ← effective_tenant host keeper given
      own ← require_own_project host keeper project_id s.tables
      members ← tier_members project_id Tier.l0 tenant_id s
      ok (read_members project_id tenant_id s.tables members)

    module _ (now : Time) where
      -- `_record`
      abbrev pub record_row :
          String → String → Tier → Shelving → String → Option String → Shelves host → Shelves host
      record_row project_id id tier op actor reason s = record s {
        assignments =
            s.assignments
            ++ (record {
              project_id = project_id;
              node_id = id;
              tier = tier;
              op = op;
              actor = actor;
              reason = reason;
              at = now;
            })
              ∷ [];
      }

      -- what L3 asks for
      abbrev pub require_provenance : String → String → Tier → Tables host → Result (Unit {0})
      require_provenance project_id id tier db =
          if same_tier tier Tier.l3
          then (has_real_provenance host keeper project_id id now db >>= λ found. elim found [
            | none ↦ err runtime_error
            | some real ↦ raise_if (not real) value_error
          ])
          else ok tt

      -- `promote`
      unfoldable pub promote :
          String → String → Tier → String → Option String → Shelves host → Result (Shelves host)
      promote project_id id tier actor reason s = do
        node ← require_node host keeper project_id id s.tables
        raise_if (is_one_of (Status.quarantined ∷ []) node.status) value_error
        raise_if (same_tier tier Tier.l0 && not (is_l0_binding node)) value_error
        sourced ← require_provenance project_id id tier s.tables
        ok (record_row project_id id tier promoted actor reason s)

      -- `demote`: whether the node was in the tier
      unfoldable pub demote :
          String
          → String
          → Tier
          → String
          → Option String
          → Shelves host
          → Result (Bool × Shelves host)
      demote project_id id tier actor reason s = do
        node ← require_node host keeper project_id id s.tables
        actual ← tier_of project_id id s
        elim actual [
          | none ↦ ok (false, s)
          | some held ↦
              if not (same_tier held tier)
              then err value_error
              else ok (true, record_row project_id id tier demoted actor reason s)
        ]

      -- `demote_from_any_tier`: the tier that held the node
      unfoldable pub demote_from_any_tier :
          String → String → String → String → Shelves host → Result (Option Tier × Shelves host)
      demote_from_any_tier project_id id actor reason s = do
        node ← require_node host keeper project_id id s.tables
        actual ← tier_of project_id id s
        elim actual [
          | none ↦ ok (none, s)
          | some held ↦ ok (some held, record_row project_id id held demoted actor (some reason) s)
        ]
