-- ===== src/Invalidation/Confined.antt =====
-- Which nodes the firing of an invalidation changes, in invalidation.py.
use causal_continuity_engine.Graph.Edges.Sole.{put_edge-edges}
use causal_continuity_engine.Prelude.{
  String, ◌==◌, string_eq, Option, some, Result, ok, err, ◌>>=◌, ◌≡◌, refl, ap, sym, ◌∙◌, inl, inr,
  arith, subst, Bool-cases, Option-cases, ==_sound,
}
use causal_continuity_engine.Graph.Rows.{Host, NodeRow, Tables}
use causal_continuity_engine.Graph.Table.{current_row_sound}
use causal_continuity_engine.Graph.Nodes.{
  NodeWrite, put_node, get, current_node, target_id, node_key, is_open_node,
}
use causal_continuity_engine.Graph.Nodes.Versions.{IsVersioned}
use causal_continuity_engine.Graph.Nodes.Invariant.{IsFresh, put_node-IsVersioned, put_node-refines}
use causal_continuity_engine.Graph.Nodes.Written.{put_node-Written}
use causal_continuity_engine.Graph.Edges.{EdgeWrite, put_edge}
use causal_continuity_engine.Graph.Rows.{EdgeRow}

-- what every answer of the second step satisfies, every answer of the two does
pub after_bind :
    {A B : Type 0} {P : B → Type 0} (m : Result A) (next : A → Result B)
    → ((a : A) (b : B) → next a ≡ ok b → P b)
    → (b : B) → (m >>= next) ≡ ok b
    → P b
after_bind (ok a) next f b h = f a b h
after_bind (err e) next f b h = absurd (ground arith)

module _ (host : Host) where
  open host use {Time, Facts}

  -- the tables stay versioned, and only nodes with the property get another current row
  pub record Confined (P : String → Type 0) (db after : Tables host) : Type 0 where
    pub versioned : IsVersioned host db.nodes → IsVersioned host after.nodes
    pub unchanged :
        IsVersioned host db.nodes
        → (id : String) → (P id → ⊥)
        → current_node host id after.nodes ≡ current_node host id db.nodes

  pub Confined-refl : {P : String → Type 0} (db : Tables host) → Confined P db db
  Confined-refl db = record { versioned = λ v. v; unchanged = λ v id h. refl }

  pub Confined-trans :
      {P : String → Type 0} (a b c : Tables host) → Confined P a b → Confined P b c → Confined P a c
  Confined-trans a b c f g = record {
    versioned = λ v. g.versioned (f.versioned v);
    unchanged = λ v id h. g.unchanged (f.versioned v) id h ∙ f.unchanged v id h;
  }

  pub Confined-weaken :
      {P Q : String → Type 0} (a b : Tables host)
      → ((id : String) → P id → Q id)
      → Confined P a b
      → Confined Q a b
  Confined-weaken a b sub f = record {
    versioned = f.versioned;
    unchanged = λ v id h. f.unchanged v id (λ p. h (sub id p));
  }

  same_nodes : {P : String → Type 0} (a b : Tables host) → b.nodes ≡ a.nodes → Confined P a b
  same_nodes a b e = record {
    versioned = λ v. subst (IsVersioned host) (sym e) v;
    unchanged = λ v id h. ap (current_node host id) e;
  }

  pub put_edge-nodes :
      (w : EdgeWrite host) (fresh : String) (now : Time) (db after : Tables host) (r : EdgeRow host)
      → put_edge host w fresh now db ≡ ok (r, after)
      → after.nodes ≡ db.nodes
  put_edge-nodes w fresh now db after r h =
      ap (λ (t : Tables host). t.nodes) (put_edge-edges host w fresh now db after r h)

  pub put_edge-Confined :
      {P : String → Type 0} (w : EdgeWrite host) (fresh : String) (now : Time)
      (db after : Tables host) (r : EdgeRow host)
      → put_edge host w fresh now db ≡ ok (r, after)
      → Confined P db after
  put_edge-Confined w fresh now db after r h =
      same_nodes db after (put_edge-nodes w fresh now db after r h)

  pub put_node-Confined :
      (w : NodeWrite host) (fresh : String) (now : Time) (db after : Tables host)
      (stored : NodeRow host)
      → IsFresh host w fresh db.nodes
      → put_node host w fresh now db ≡ ok (stored, after)
      → Confined (λ id. id ≡ target_id host w fresh) db after
  put_node-Confined w fresh now db after stored unused h = record {
    versioned = λ v. put_node-IsVersioned host w fresh now db after stored v unused h;
    unchanged = λ v id other. elim (Bool-cases (id == target_id host w fresh)) [
      | inl same ↦ absurd (other (==_sound id (target_id host w fresh) same))
      | inr e ↦ (put_node-refines host w fresh now db after stored v unused h).1 id ∙ (rw e refl)
    ];
  }

  pub get-node_id :
      (id : String) (tenant_id project_id entity_type : Option String) (db : Tables host)
      (r : NodeRow host)
      → get host id tenant_id project_id entity_type db ≡ ok r
      → r.node_id ≡ id
  unfolding get
  get-node_id id tenant_id project_id entity_type db r h =
      elim (Option-cases (current_node host id db.nodes)) [
        | inl e ↦ absurd (ground arith)
        | inr (c, e) ↦
            let same : r ≡ c = ground arith in
            ap (λ (x : NodeRow host). x.node_id) same
            ∙ (current_row_sound (node_key host) (is_open_node host) id db.nodes c e).1
      ]

  -- a write to a node that has the property
  pub put_node-Confined_at :
      {P : String → Type 0} (w : NodeWrite host) (fresh : String) (now : Time)
      (db after : Tables host) (stored : NodeRow host)
      → IsFresh host w fresh db.nodes
      → P (target_id host w fresh)
      → put_node host w fresh now db ≡ ok (stored, after)
      → Confined P db after
  put_node-Confined_at {P} w fresh now db after stored unused p h =
      Confined-weaken db after (λ id e. subst P (sym e) p)
        (put_node-Confined w fresh now db after stored unused h)

  -- the row that a write returns is of the node that it writes
  pub put_node-node_id :
      (w : NodeWrite host) (fresh : String) (now : Time) (db after : Tables host)
      (stored : NodeRow host)
      → put_node host w fresh now db ≡ ok (stored, after)
      → stored.node_id ≡ target_id host w fresh
  put_node-node_id w fresh now db after stored h =
      let wrote = put_node-Written host w fresh now db after stored h in
      get-node_id (target_id host w fresh) (some w.tenant_id) (some w.project_id)
        (some w.entity_type) after stored wrote.answer
