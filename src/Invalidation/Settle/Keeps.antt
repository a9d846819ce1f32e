-- ===== src/Invalidation/Settle/Keeps.antt =====
-- Writes of invalidation.py that leave the status of one node alone.
use causal_continuity_engine.Prelude.{
  String, ◌==◌, string_eq, Option, none, some, ok, ◌≡◌, ◌≢◌, refl, ap, sym, ◌∙◌, inl, inr, arith,
  subst, Bool-cases, ==_sound,
}
use causal_continuity_engine.Ontology.{Status}
use causal_continuity_engine.Graph.Rows.{Host, NodeRow, Tables}
use causal_continuity_engine.Graph.Nodes.{
  NodeWrite, node_row, put_node, current_node, target_id, previous,
}
use causal_continuity_engine.Graph.Nodes.Versions.{IsVersioned}
use causal_continuity_engine.Graph.Nodes.Invariant.{
  put_node-IsVersioned, put_node-refines, IsFresh, previous-target,
}
use causal_continuity_engine.Invalidation.Confined.{Confined}

module _ (host : Host) where
  open host use {Time}

  -- the status of a row that may be missing, and of a node
  abbrev pub status_in : Option (NodeRow host) → Option Status
  status_in none = none
  status_in (some r) = r.status

  abbrev pub node_status : String → Tables host → Option Status
  node_status id db = status_in (current_node host id db.nodes)

  -- the tables stay versioned, and the node keeps its status
  pub record Keeps (id : String) (db after : Tables host) : Type 0 where
    pub versioned : IsVersioned host db.nodes → IsVersioned host after.nodes
    pub same : IsVersioned host db.nodes → node_status id after ≡ node_status id db

  pub Keeps-refl : (id : String) (db : Tables host) → Keeps id db db
  Keeps-refl id db = record { versioned = λ v. v; same = λ v. refl }

  pub Keeps-eq : (id : String) (db after : Tables host) → after ≡ db → Keeps id db after
  Keeps-eq id db after e = subst (Keeps id db) (sym e) (Keeps-refl id db)

  pub Keeps-trans : (id : String) (a b c : Tables host) → Keeps id a b → Keeps id b c → Keeps id a c
  Keeps-trans id a b c f g = record {
    versioned = λ v. g.versioned (f.versioned v);
    same = λ v. g.same (f.versioned v) ∙ f.same v;
  }

  -- a change of other nodes
  pub Keeps-Confined :
      (id : String) (db after : Tables host)
      → Confined host (λ x. id ≢ x) db after
      → Keeps id db after
  Keeps-Confined id db after f = record {
    versioned = f.versioned;
    same = λ v. ap status_in (f.unchanged v id (λ differs. differs refl));
  }

  node_row-no_status :
      (w : NodeWrite host) (id : String) (now : Time) (prev : Option (NodeRow host))
      → w.status ≡ none
      → (node_row host w id now prev).status ≡ status_in prev
  unfolding node_row
  node_row-no_status w id now none h = h
  node_row-no_status w id now (some p) h = ground (arith, h)

  -- a write without a status
  pub put_node-Keeps :
      (id : String) (w : NodeWrite host) (written : String) (now : Time) (db after : Tables host)
      (stored : NodeRow host)
      → w.node_id ≡ some written
      → w.status ≡ none
      → put_node host w "" now db ≡ ok (stored, after)
      → Keeps id db after
  put_node-Keeps id w written now db after stored named unset h =
      let given : IsFresh host w "" db.nodes = λ none_given. ground (arith, named, none_given) in
      record {
        versioned = λ v. put_node-IsVersioned host w "" now db after stored v given h;
        same = λ v.
            (let (stays, rows) = put_node-refines host w "" now db after stored v given h in
              let target = target_id host w "" in
              elim (Bool-cases (id == target)) [
                | inr other ↦
                    let left : current_node host id after.nodes ≡ current_node host id db.nodes =
                      rows id ∙ (rw other refl) in
                    ap status_in left
                | inl here ↦
                    let moved : current_node host id after.nodes ≡ some stored =
                      rows id ∙ (rw here refl) in
                    let prior : previous host w db.nodes ≡ current_node host id db.nodes =
                      previous-target host w "" db.nodes given
                      ∙ ap (λ k. current_node host k db.nodes) (sym (==_sound id target here)) in
                    ap status_in moved
                    ∙ (ap (λ (r : NodeRow host). r.status) stays
                        ∙ (node_row-no_status w target now (previous host w db.nodes) unset
                            ∙ ap status_in prior))
              ]);
      }
