-- ===== src/Invalidation/Reached.antt =====
-- Which nodes an invalidation finds affected, in invalidation.py's `_fire`.
use causal_continuity_engine.Invalidation.Confined.{get-node_id}
use causal_continuity_engine.Prelude.{
  ◌*◌, String, Bool, true, false, if◌then◌else◌, List, [], ◌∷◌, Option, none, some, In, length,
  traversal_budget_exceeded, Result, ok, err, ◌>>=◌, raise_if, >>=-eq-ok, Result-cases, value_error,
  Error, ◌≡◌, refl, ap, sym, inl, inr, arith, subst, key_error,
}
use causal_continuity_engine.Ontology.{Status, Impact}
use causal_continuity_engine.Graph.Rows.{Host, NodeRow, Tables}
use causal_continuity_engine.Graph.Nodes.{get}
use causal_continuity_engine.Graph.Traverse.{Bounds, Hit, dependents}
use causal_continuity_engine.Graph.Traverse.Walks.{IsReached}
use causal_continuity_engine.Graph.Traverse.Answer.{dependents_sound, edges_into}
use causal_continuity_engine.Invalidation.Impact.{
  classify, gated, is_blocked, is_unknown_criticality, needs_human,
}
use causal_continuity_engine.Invalidation.Packet.{Affected, Explanation, Engine, Trigger}
use causal_continuity_engine.Invalidation.Writes.{unless_missing}
use causal_continuity_engine.Invalidation.Assess.{
  ended, bounds_of, blast, held_restore_status, classify_all, check_trigger, explanation, assess,
  retried, affected,
}

gated-unblocked : (impact : Impact) → is_blocked (gated true impact) ≡ false
unfolding gated
gated-unblocked Impact.valid = refl
gated-unblocked Impact.review_required = refl
gated-unblocked Impact.blocked = refl
gated-unblocked Impact.invalidated = refl

pub ok_injective {ℓ} : {A : Type ℓ} (a b : A) → ok a ≡ ok b → a ≡ b
ok_injective a b h = cc

pub unless_missing-ok :
    {A : Type 0} (m : Result A) (e : Error) (a : A) → unless_missing e m ≡ ok a → m ≡ ok a
unless_missing-ok (ok x) e a h = h
unless_missing-ok (err key_error) e a h = absurd (ground arith)
unless_missing-ok (err other) e a h = absurd (ground arith)

module _ (host : Host) where
  open host use {Time}

  -- the entry is of the hit, and blocks nothing while a human is asked
  pub record IsOf (human : Bool) (h : Hit host) (c : Affected host) : Type 0 where
    pub node : c.receipt.node_id ≡ h.node_id
    pub path : c.path ≡ h.path
    pub waits : human ≡ true → is_blocked c.impact ≡ false

  affected-IsOf :
      (human : Bool) (dep : Hit host) (node : NodeRow host) (impact : Impact)
      (restore : Option Status)
      → IsOf human dep (affected host human dep node impact restore)
  affected-IsOf human dep node impact restore = record {
    node = refl;
    path = refl;
    waits = λ asked. (rw asked (gated-unblocked impact));
  }

  classify_all-hits :
      (engine : Engine host) (q : Trigger host) (human : Bool) (deps : List (Hit host))
      (db : Tables host) (list : List (Affected host)) (c : Affected host)
      → classify_all host engine q human deps db ≡ ok list
      → In c list
      → (h : Hit host) × In h deps × IsOf human h c
  unfolding classify_all
  classify_all-hits engine q human [] db list c h i =
      let nothing : list ≡ [] = ground arith in absurd (subst (In c) nothing i)
  classify_all-hits engine q human (dep ∷ deps) db list c h i =
      elim (Result-cases (get host dep.node_id (some q.tenant_id) (some q.project_id) none db)) [
        | inl (x, missing) ↦
            let same : classify_all host engine q human deps db ≡ ok list = cc in
            let (d, j, of) = classify_all-hits engine q human deps db list c same i in
            (d, inr j, of)
        | inr (node, found) ↦
            let opened : (classify host dep.strength node.criticality q.trigger_confidence
                  >>= λ impact.
                      held_restore_status host engine q dep.node_id node.status db >>= λ restore.
                      classify_all host engine q human deps db >>= λ rest.
                      ok (affected host human dep node impact restore ∷ rest))
                ≡ ok list =
              cc in
            let (impact, a, h1) =
              >>=-eq-ok (classify host dep.strength node.criticality q.trigger_confidence) _
                opened in
            let (restore, b, h2) =
              >>=-eq-ok (held_restore_status host engine q dep.node_id node.status db) _ h1 in
            let (rest, d, h3) =
              >>=-eq-ok (classify_all host engine q human deps db)
                (λ rest. ok (affected host human dep node impact restore ∷ rest)) h2 in
            let same : list ≡ affected host human dep node impact restore ∷ rest = ground arith in
            elim (subst (In c) same i) [
              | inl first ↦ (
                dep,
                inl refl,
                subst (IsOf human dep) (sym first) (affected-IsOf human dep node impact restore),
              )
              | inr later ↦
                  let (x, j, of) = classify_all-hits engine q human deps db rest c d later in
                  (x, inr j, of)
            ]
      ]

  ended-some : {A : Type 0} (x : Option (Result A)) (a : A) → ended host x ≡ ok a → x ≡ some (ok a)
  ended-some none a h = absurd (ground arith)
  ended-some (some r) a h = ap some h

  retried-ok :
      (a b : Result (List (Hit host))) (hits : List (Hit host)) (truncated : Bool)
      → retried host a b ≡ ok (hits, truncated)
      → (if truncated then b else a) ≡ ok hits
  retried-ok (ok found) b hits true h = absurd (ground arith)
  retried-ok (ok found) b hits false h = ground arith
  retried-ok (err traversal_budget_exceeded) (ok found) hits true h = ground arith
  retried-ok (err traversal_budget_exceeded) (ok found) hits false h = absurd (ground arith)
  retried-ok (err traversal_budget_exceeded) (err e) hits truncated h = absurd (ground arith)
  retried-ok (err other) b hits truncated h = absurd (ground arith)

  retried-some :
      (a b : Bounds host) (target : String) (now : Time) (db : Tables host) (hits : List (Hit host))
      (truncated : Bool)
      → (if truncated
          then ended host (dependents host b target now db)
          else ended host (dependents host a target now db))
        ≡ ok hits
      → dependents host (if truncated then b else a) target now db ≡ some (ok hits)
  retried-some a b target now db hits true h = ended-some (dependents host b target now db) hits h
  retried-some a b target now db hits false h = ended-some (dependents host a target now db) hits h

  -- the bounds of the search that answered
  abbrev pub searched : Engine host → Bool → Bounds host
  searched engine truncated =
      if truncated
      then bounds_of host 2 (engine.max_nodes * 10)
      else bounds_of host engine.max_depth engine.max_nodes

  blast-hits :
      (engine : Engine host) (target : String) (now : Time) (db : Tables host)
      (hits : List (Hit host)) (truncated : Bool)
      → blast host engine target now db ≡ ok (hits, truncated)
      → dependents host
          (if truncated
            then bounds_of host 2 (engine.max_nodes * 10)
            else bounds_of host engine.max_depth engine.max_nodes)
          target
          now
          db
        ≡ some (ok hits)
  unfolding blast
  blast-hits engine target now db hits truncated h =
      retried-some (bounds_of host engine.max_depth engine.max_nodes)
        (bounds_of host 2 (engine.max_nodes * 10)) target now db hits truncated
        (retried-ok
          (ended host
            (dependents host (bounds_of host engine.max_depth engine.max_nodes) target now db))
          (ended host (dependents host (bounds_of host 2 (engine.max_nodes * 10)) target now db))
          hits truncated h)

  -- what an assessment has found
  abbrev Found :
      Engine host
      → Trigger host
      → Time
      → Tables host
      → NodeRow host × List (Affected host) × Explanation host
      → Type 0
  Found engine q now db a =
      (a.0.node_id ≡ q.target_node_id)
      × ((c : Affected host)
          → In c a.1
          → (h : Hit host) × IsReached host (searched engine a.2.truncated)
              (edges_into host (searched engine a.2.truncated) now db) q.target_node_id h
            × IsOf a.2.requires_human_confirmation h c)

  Found-parts :
      (engine : Engine host) (q : Trigger host) (now : Time) (db : Tables host) (t : NodeRow host)
      (hits : List (Hit host)) (truncated : Bool) (l : List (Affected host)) (human : Bool)
      (r : Option Status)
      → get host q.target_node_id (some q.tenant_id) (some q.project_id) none db ≡ ok t
      → blast host engine q.target_node_id now db ≡ ok (hits, truncated)
      → classify_all host engine q human hits db ≡ ok l
      → Found engine q now db (t, l, explanation host q t l truncated human r)
  Found-parts engine q now db t hits truncated l human r found hit listed = (
    get-node_id host q.target_node_id _ _ _ db t found,
    (λ c i.
        let (h, j, of) = classify_all-hits engine q human hits db l c listed i in
        let sound =
          dependents_sound host (searched engine truncated) q.target_node_id now db hits
            (blast-hits engine q.target_node_id now db hits truncated hit) in
        (h, sound.0 h j, of)),
  )

  -- An accepted assessment is of the requested target, and each affected node that it lists is the
  -- end of a walk of stored edges from the target, along its path and within the depth searched: the
  -- engine's own, or two where that search exceeded its budget. Nothing is blocked while a human is
  -- asked to confirm.
  pub assess-IsReached :
      (engine : Engine host) (q : Trigger host) (now : Time) (db : Tables host)
      (target : NodeRow host) (classified : List (Affected host)) (e : Explanation host)
      → assess host engine now q db ≡ ok (target, classified, e)
      → (target.node_id ≡ q.target_node_id)
        × ((c : Affected host)
            → In c classified
            → (h : Hit host) × IsReached host
                (searched engine e.truncated)
                (edges_into host (searched engine e.truncated) now db)
                q.target_node_id
                h
              × IsOf e.requires_human_confirmation h c)
  unfolding assess
  assess-IsReached engine q now db target classified e h =
      let (t, found, h1) =
        >>=-eq-ok
          (unless_missing value_error
            (get host q.target_node_id (some q.tenant_id) (some q.project_id) none db))
          _ h in
      let (u, known, h2) =
        >>=-eq-ok (raise_if (is_unknown_criticality t.criticality) value_error) _ h1 in
      let (v, live, h3) = >>=-eq-ok (check_trigger host q db) _ h2 in
      let (b, hit, h4) = >>=-eq-ok (blast host engine q.target_node_id now db) _ h3 in
      let human =
        needs_human host q.requires_human q.trigger_confidence b.1 (length b.0) t.criticality in
      let (l, listed, h5) = >>=-eq-ok (classify_all host engine q human b.0 db) _ h4 in
      let (r, held, h6) =
        >>=-eq-ok (held_restore_status host engine q q.target_node_id t.status db)
          (λ r. ok (t, l, explanation host q t l b.1 human r)) h5 in
      subst (Found engine q now db) (ok_injective _ _ h6) (
        Found-parts engine q now db t b.0 b.1 l human r (unless_missing-ok _ value_error t found)
          hit listed)
