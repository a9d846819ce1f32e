-- ===== src/Graph/Nodes/Written.antt =====
-- What an accepted `put_node` of graph.py checked and wrote.
use causal_continuity_engine.Prelude.{
  String, Bool, false, Option, none, some, Result, ok, ◌>>◌, raise_if, >>=-eq-ok, ◌≡◌, refl, arith,
  value_error, integrity_error,
}
use causal_continuity_engine.Graph.Rows.{Host, NodeRow, Tables}
use causal_continuity_engine.Graph.Nodes.{
  NodeWrite, node_row, put_node, previous, get, is_malformed_write, reopens_wrongly,
  changes_identity, is_taken, check_write, written, target_id, new_row, require_event_scope,
}

checks :
    (a : Bool) (m : Result (Unit {0})) (b c d : Bool)
    → (raise_if a value_error
        >> (m
            >> (raise_if b value_error >> (raise_if c value_error >> raise_if d integrity_error))))
      ≡ ok tt
    → (a ≡ false) × (b ≡ false) × (c ≡ false) × (d ≡ false)
checks a m b c d h = ground arith

module _ (host : Host) where
  open host use {Time}

  -- what the checks established
  pub record Accepted (w : NodeWrite host) (fresh : String) (now : Time) (db : Tables host)
      : Type 0 where
    pub well_formed : is_malformed_write host w ≡ false
    pub reopens : reopens_wrongly host w (previous host w db.nodes) ≡ false
    pub identity : changes_identity host w (previous host w db.nodes) ≡ false
    pub free : is_taken host (new_row host w fresh now db) db.nodes ≡ false

  pub check_write-Accepted :
      (w : NodeWrite host) (fresh : String) (now : Time) (db : Tables host)
      → check_write host w fresh now db ≡ ok tt
      → Accepted w fresh now db
  unfolding check_write
  check_write-Accepted w fresh now db h =
      let (well_formed, reopens, identity, free) =
        checks (is_malformed_write host w)
          (require_event_scope w.event_id w.tenant_id w.project_id db.events)
          (reopens_wrongly host w (previous host w db.nodes))
          (changes_identity host w (previous host w db.nodes))
          (is_taken host (new_row host w fresh now db) db.nodes) h in
      record { well_formed = well_formed; reopens = reopens; identity = identity; free = free }

  -- what an accepted write returned
  pub record Written (w : NodeWrite host) (fresh : String) (now : Time) (db after : Tables host)
      (stored : NodeRow host) : Type 0 where
    pub accepted : Accepted w fresh now db
    pub result : after ≡ written host w fresh now db
    pub answer :
        get host
          (target_id host w fresh)
          (some w.tenant_id)
          (some w.project_id)
          (some w.entity_type)
          after
        ≡ ok stored

  pub put_node-Written :
      (w : NodeWrite host) (fresh : String) (now : Time) (db after : Tables host)
      (stored : NodeRow host)
      → put_node host w fresh now db ≡ ok (stored, after)
      → Written w fresh now db after stored
  unfolding put_node
  put_node-Written w fresh now db after stored h =
      let (u, checked, h1) = >>=-eq-ok (check_write host w fresh now db) _ h in
      let (r, got, h2) =
        >>=-eq-ok
          (get host (target_id host w fresh) (some w.tenant_id) (some w.project_id)
            (some w.entity_type) (written host w fresh now db))
          _ h1 in
      let same_row : r ≡ stored = cc in
      let same_db : after ≡ written host w fresh now db = cc in
      record {
        accepted = check_write-Accepted w fresh now db checked;
        result = same_db;
        answer = rw (same_db, ← same_row) got;
      }

  pub node_row-tx_from :
      (w : NodeWrite host) (id : String) (now : Time) (prev : Option (NodeRow host))
      → (node_row host w id now prev).tx_from ≡ now
  unfolding node_row
  node_row-tx_from w id now none = refl
  node_row-tx_from w id now (some p) = refl

  pub node_row-node_id :
      (w : NodeWrite host) (id : String) (now : Time) (prev : Option (NodeRow host))
      → (node_row host w id now prev).node_id ≡ id
  unfolding node_row
  node_row-node_id w id now none = refl
  node_row-node_id w id now (some p) = refl
