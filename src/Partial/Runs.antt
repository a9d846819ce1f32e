-- ===== src/Partial/Runs.antt =====
-- A concrete run of partial.py's `quarantine`, on a node that is pinned to L0.
use causal_continuity_engine.Core.{is_public_identifier}
use causal_continuity_engine.Prelude.{
  String, true, false, List, [], ◌∷◌, Option, none, some, contains, ok, ◌≡◌, ◌≢◌, string_eq, refl,
}
use causal_continuity_engine.Ontology.{status_beq}
use causal_continuity_engine.Graph.Rows.{NodeRow}
use causal_continuity_engine.Graph.Table.{current_row, close_current}
use causal_continuity_engine.Graph.Nodes.{
  require_event_scope, get, put_node, check_write, written, write_row, node_row, is_malformed_write,
}
use causal_continuity_engine.Graph.Nodes.Runs.{host}
use causal_continuity_engine.Graph.Traverse.Runs.{node, cycle}
use causal_continuity_engine.Invalidation.Runs.{value, cycle-IsVersioned}
use causal_continuity_engine.Memory.Rows.{Tier, Shelves, Keeper}
use causal_continuity_engine.Memory.Tiers.{
  last_row, tier_of, tier_members, promote, demote_from_any_tier,
}
use causal_continuity_engine.Partial.{Journal, quarantine}
use causal_continuity_engine.Partial.Barred.{quarantine_bars}

abbrev keeper : Keeper host
keeper = record { tenant_id = none; may_mandate = λ node. true; is_human_text = λ s. true }

abbrev journal : Journal host
journal = record {
  quarantined_for = λ reason at. reason ∷ [];
  reported = λ report at. [];
  rolled_back = λ rollback at. [];
}

abbrev shelves : Shelves host
shelves = record { tables = cycle; assignments = [] }

abbrev pinned : Shelves host
pinned = value shelves (promote host keeper 20 "prj_a" "a" Tier.l0 "ann" none shelves)

-- "a" is pinned before
holds : tier_of host keeper "prj_a" "a" pinned ≡ ok (some Tier.l0)
unfolding tier_of last_row promote get current_row status_beq
holds = refl

abbrev barred : NodeRow host × Shelves host
barred =
    value (node "a", shelves)
      (quarantine host keeper keeper journal 30 "a" "ann" "injection" none pinned)

quarantines :
    (quarantine host keeper keeper journal 30 "a" "ann" "injection" none pinned ≡ ok barred)
    × (barred.0.project_id ≡ "prj_a")
unfolding quarantine promote demote_from_any_tier tier_of last_row is_public_identifier get
    current_row put_node check_write written write_row node_row is_malformed_write
    require_event_scope close_current status_beq
quarantines = (refl, refl)

pinned-tables : pinned.tables ≡ cycle
unfolding promote get current_row status_beq
pinned-tables = refl

quarantine_bars_example :
    (tier_of host keeper barred.0.project_id "a" barred.1 ≡ ok none)
    × ((project_id : String) (tier : Tier) (given : Option String) (members : List String)
        → tier_members host keeper project_id tier given barred.1 ≡ ok members
        → contains members "a" ≡ false)
    × ((later : host.Time) (project_id : String) (tier : Tier) (who : String) (why : Option String)
          (r : Shelves host)
        → promote host keeper later project_id "a" tier who why barred.1 ≢ ok r)
unfolding promote get current_row status_beq
quarantine_bars_example =
    quarantine_bars host keeper keeper journal 30 "a" "ann" "injection" none pinned barred.1
      barred.0 cycle-IsVersioned quarantines.0
