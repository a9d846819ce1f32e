-- ===== src/Memory/Walked.antt =====
-- What the notes of the walk satisfy, in memory.py's `_has_real_provenance`.
use causal_continuity_engine.Prelude.{
  ◌≤◌, String, Bool, true, false, ◌==◌, string_eq, List, ◌∷◌, Option, none, some, lookup,
  lookup-insert, length, In, ok, err, key_error, ◌≡◌, refl, ap, sym, ◌⊎◌, inl, inr, arith, subst,
  Bool-cases, ==_sound, ==_refl,
}
use causal_continuity_engine.Graph.Rows.{Host, NodeRow, Tables, is_null}
use causal_continuity_engine.Graph.Nodes.{get}
use causal_continuity_engine.Memory.Rows.{Keeper}
use causal_continuity_engine.Memory.Provenance.{
  Notes, most_nodes, noted, canonical_event_exists, is_terminal, is_event_backed, sources_of,
}

module _ (host : Host) (keeper : Keeper host) (now : host.Time) (db : Tables host)
    (tenant_id project_id : String) where
  -- The node has a path along the current edges that ends in a human decision, an authoritative
  -- verification, recorded evidence, or an event of the scope.
  pub data IsRooted : String → Type 0 where
    event :
        (id : String)
        → get host id (some tenant_id) (some project_id) none db ≡ err key_error
        → canonical_event_exists host keeper now db tenant_id project_id id ≡ ok true
        → IsRooted id
    terminal :
        (id : String) (node : NodeRow host)
        → get host id (some tenant_id) (some project_id) none db ≡ ok node
        → is_terminal host keeper now db tenant_id project_id node ≡ true
        → IsRooted id
    backed :
        (id : String) (node : NodeRow host)
        → get host id (some tenant_id) (some project_id) none db ≡ ok node
        → is_event_backed host keeper now db tenant_id project_id node ≡ ok true
        → IsRooted id
    beyond :
        (id source : String) (node : NodeRow host) (sources : List String)
        → get host id (some tenant_id) (some project_id) none db ≡ ok node
        → sources_of host keeper now db tenant_id project_id id ≡ ok sources
        → In source sources
        → IsRooted source
        → IsRooted id

  -- the notes are true, and every discovered node was noted or is being visited
  pub record IsKept (visiting : List String) (n : Notes) : Type 0 where
    pub rooted : (id : String) → lookup id n.memo ≡ some true → IsRooted id
    pub bounded : length n.discovered ≤ most_nodes
    pub accounted :
        (id : String) → In id n.discovered → (is_null (lookup id n.memo) ≡ false) ⊎ In id visiting

  -- a good answer: within the fuel, with good notes, none of which is lost, and true
  pub record IsAnswer (visiting : List String) (n : Notes) (root : Type 0)
      (x : Option (Bool × Notes)) : Type 0 where
    pub answer : Bool × Notes
    pub given : x ≡ some answer
    pub kept : IsKept visiting answer.1
    pub more : length n.discovered ≤ length answer.1.discovered
    pub holds : answer.0 ≡ true → root

  pub IsKept-noted :
      (visiting : List String) (id : String) (b : Bool) (n : Notes)
      → (b ≡ true → IsRooted id)
      → IsKept (id ∷ visiting) n
      → IsKept visiting (noted id b n)
  IsKept-noted visiting id b n root kept = record {
    rooted = λ j h. elim (Bool-cases (j == id)) [
      | inl here ↦
          subst IsRooted (sym (==_sound j id here))
            (root (let put = lookup-insert id j b n.memo in ground (arith, put, here, h)))
      | inr other ↦
          kept.rooted j (let put = lookup-insert id j b n.memo in ground (arith, put, other, h))
    ];
    bounded = kept.bounded;
    accounted = λ j i. elim (Bool-cases (j == id)) [
      | inl here ↦ inl (let put = lookup-insert id j b n.memo in rw (put, here) refl)
      | inr other ↦ elim (kept.accounted j i) [
        | inl known ↦ inl (let put = lookup-insert id j b n.memo in rw (put, other) known)
        | inr (inl same) ↦ absurd (ground (arith, other, ap (λ k. k == id) same, ==_refl id))
        | inr (inr on) ↦ inr on
      ]
    ];
  }
