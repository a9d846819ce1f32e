-- ===== src/Graph/Nodes/Runs.antt =====
-- Concrete runs of the node operations of graph.py.
use causal_continuity_engine.Graph.Table.{live, current_row}
use causal_continuity_engine.Core.{is_public_identifier}
use causal_continuity_engine.Prelude.{
  ℕ, ◌*◌, ◌/◌, ltb, leb, String, true, false, List, [], ◌∷◌, ◌++◌, Option, none, some, ok, ◌≡◌,
  refl, arith, if◌then◌else◌, ◌==◌, string_eq,
}
use causal_continuity_engine.Graph.Rows.{Host, Tables}
use causal_continuity_engine.Graph.Nodes.{
  NodeWrite, put_node, new_row, written, current_node, is_malformed_write, require_event_scope,
  write_row, node_row,
}
use causal_continuity_engine.Graph.Reads.{as_of}
use causal_continuity_engine.Graph.Nodes.Versions.{IsVersioned}
use causal_continuity_engine.Graph.Nodes.Invariant.{put_node-IsVersioned, put_node-refines}
use causal_continuity_engine.Graph.Nodes.Beliefs.{as_of-put_node, contents}
use causal_continuity_engine.Graph.Nodes.Total.{put_node_succeeds}

-- times count seconds, a JSON object is the list of its updates, and floats count ten-thousandths
abbrev pub host : Host
host = record {
  Time = ℕ;
  at_most = leb;
  instant = λ t. t;
  is_datetime = λ t. true;
  Facts = List String;
  update = λ old new. old ++ new;
  Scope = String;
  Float = ℕ;
  lt = ltb;
  times = λ a b. (a * b) / 10000;
  tenths = λ n. n * 1000;
  hundredths = λ n. n * 100;
  rounded = λ x. x;
}

abbrev pub written_node : String → Option String → List String → NodeWrite host
written_node kind id facts = record {
  entity_type = kind;
  tenant_id = "tnt_a";
  project_id = "prj_a";
  facts = facts;
  node_id = id;
  status = none;
  criticality = none;
  authority = none;
  confidence = some 9000;
  scope = none;
  valid_from = none;
  valid_to = none;
  reopen_validity = false;
  event_id = none;
  extractor = none;
  extractor_version = none;
}

abbrev pub no_rows : Tables host
no_rows = record { nodes = []; edges = []; events = [] }

abbrev first_write : NodeWrite host
first_write = written_node "decision" none ("title" ∷ [])

abbrev second_write : NodeWrite host
second_write = written_node "decision" (some "dec_1") ("owner" ∷ [])

abbrev after_first : Tables host
after_first = written host first_write "dec_1" 10 no_rows

abbrev after_second : Tables host
after_second = written host second_write "" 20 after_first

no_rows-IsVersioned : IsVersioned host []
unfolding live
no_rows-IsVersioned = record { sole = λ id. omega arith; topped = λ r i. elim i [ ] }

first_formed : is_malformed_write host first_write ≡ false
unfolding is_malformed_write is_public_identifier
first_formed = refl

second_formed : is_malformed_write host second_write ≡ false
unfolding is_malformed_write is_public_identifier
second_formed = refl

-- the first version of a node is stored
first_stored :
    put_node host first_write "dec_1" 10 no_rows
    ≡ ok (new_row host first_write "dec_1" 10 no_rows, after_first)
unfolding require_event_scope current_row
first_stored =
    put_node_succeeds host first_write "dec_1" 10 no_rows no_rows-IsVersioned (λ h. refl)
      first_formed refl refl refl

after_first-IsVersioned : IsVersioned host after_first.nodes
unfolding current_row
after_first-IsVersioned =
    put_node-IsVersioned host first_write "dec_1" 10 no_rows after_first
      (new_row host first_write "dec_1" 10 no_rows) no_rows-IsVersioned (λ h. refl) first_stored

-- and so is the second
second_stored :
    put_node host second_write "" 20 after_first
    ≡ ok (new_row host second_write "" 20 after_first, after_second)
unfolding require_event_scope written write_row node_row current_row
second_stored =
    put_node_succeeds host second_write "" 20 after_first after_first-IsVersioned
      (λ h. absurd (ground arith)) second_formed refl refl refl

put_node-IsVersioned_example : IsVersioned host after_second.nodes
put_node-IsVersioned_example =
    put_node-IsVersioned host second_write "" 20 after_first after_second
      (new_row host second_write "" 20 after_first) after_first-IsVersioned
      (λ h. absurd (ground arith)) second_stored

put_node-refines_example :
    (new_row host second_write "" 20 after_first ≡ new_row host second_write "" 20 after_first)
    × ((id : String)
        → current_node host id after_second.nodes ≡ (
            if id == "dec_1"
            then some (new_row host second_write "" 20 after_first)
            else current_node host id after_first.nodes))
put_node-refines_example =
    put_node-refines host second_write "" 20 after_first after_second
      (new_row host second_write "" 20 after_first) after_first-IsVersioned
      (λ h. absurd (ground arith)) second_stored

as_of-put_node_example :
    contents host (as_of host "prj_a" 15 none none after_second)
    ≡ contents host (as_of host "prj_a" 15 none none after_first)
as_of-put_node_example =
    as_of-put_node host second_write "" 20 15 after_first after_second
      (new_row host second_write "" 20 after_first) "prj_a" none none second_stored refl

put_node_succeeds_example :
    put_node host first_write "dec_1" 10 no_rows
    ≡ ok (new_row host first_write "dec_1" 10 no_rows, after_first)
unfolding require_event_scope current_row
put_node_succeeds_example =
    put_node_succeeds host first_write "dec_1" 10 no_rows no_rows-IsVersioned (λ h. refl)
      first_formed refl refl refl
