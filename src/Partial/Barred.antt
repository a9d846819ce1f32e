-- ===== src/Partial/Barred.antt =====
-- What a quarantine in partial.py means for the tiers of memory.py.
use causal_continuity_engine.Core.{labelled}
use causal_continuity_engine.Prelude.{
  String, Bool, true, false, ◌&&◌, string_eq, List, [], ◌∷◌, ◌++◌, Option, none, some, contains, ok,
  >>=-eq-ok, Result-cases, permission_error, ◌≡◌, ◌≢◌, refl, ap, sym, ◌∙◌, inl, inr, arith, subst,
  Option-cases, ==_refl,
}
use causal_continuity_engine.Ontology.{Status, status_eq, status_beq}
use causal_continuity_engine.Graph.Rows.{Host, NodeRow, Tables}
use causal_continuity_engine.Graph.Nodes.{
  NodeWrite, put_node, get, current_node, node_row, previous,
}
use causal_continuity_engine.Graph.Nodes.Versions.{IsVersioned}
use causal_continuity_engine.Graph.Nodes.Invariant.{put_node-refines, get-stored}
use causal_continuity_engine.Invalidation.Reached.{ok_injective, unless_missing-ok}
use causal_continuity_engine.Invalidation.Writes.{status_write}
use causal_continuity_engine.Memory.Rows.{
  Tier, is_tier, demoted, Assignment, Shelves, Keeper, effective_tenant, require_own_project,
  require_node,
}
use causal_continuity_engine.Memory.Tiers.{
  last_row, assigned, tier_of, tier_members, is_member, is_in_force, demote_from_any_tier, promote,
  record_row, tier_left,
}
use causal_continuity_engine.Memory.Shelved.{tier_members-tier_of}
use causal_continuity_engine.Partial.{Journal, own_node, quarantine}

module _ (host : Host) where
  open host use {Time}

  -- the current row of the node is a quarantined one
  pub record IsQuarantined (id : String) (db : Tables host) : Type 0 where
    pub row : NodeRow host
    pub current : current_node host id db.nodes ≡ some row
    pub status : row.status ≡ some Status.quarantined

  -- whoever reads the node reads its quarantined row
  get-IsQuarantined :
      (id : String) (tenant_id project_id kind : Option String) (db : Tables host)
      (node : NodeRow host)
      → IsQuarantined id db
      → get host id tenant_id project_id kind db ≡ ok node
      → node.status ≡ some Status.quarantined
  get-IsQuarantined id tenant_id project_id kind db node q h =
      let same = get-stored host id tenant_id project_id kind db q.row node h q.current in
      ap (λ (r : NodeRow host). r.status) same ∙ q.status

  node_row-status :
      (w : NodeWrite host) (id : String) (now : Time) (prev : Option (NodeRow host))
      → w.status ≡ some Status.quarantined
      → (node_row host w id now prev).status ≡ some Status.quarantined
  unfolding node_row
  node_row-status w id now none h = h
  node_row-status w id now (some p) h = rw h refl

  node_row-project_id :
      (w : NodeWrite host) (id : String) (now : Time) (prev : Option (NodeRow host))
      → (node_row host w id now prev).project_id ≡ w.project_id
  unfolding node_row
  node_row-project_id w id now none = refl
  node_row-project_id w id now (some p) = refl

  and_false : (b : Bool) → (b && false) ≡ false
  and_false true = refl
  and_false false = refl

  module _ (keeper : Keeper host) where
    unstanding :
        (tier : Tier) (node : NodeRow host)
        → node.status ≡ some Status.quarantined
        → is_in_force host keeper tier node ≡ false
    unfolding status_beq
    unstanding tier node barred = rw barred refl

    barred_entry :
        (project_id id : String) (tier : Tier) (tenant_id : Option String) (db : Tables host)
        (held : Option Tier)
        → IsQuarantined id db
        → is_member host keeper project_id tier tenant_id db (id, held) ≡ false
    unfolding status_beq
    barred_entry project_id id tier tenant_id db held q =
        elim (Result-cases (get host id tenant_id (some project_id) none db)) [
          | inl (e, missing) ↦ rw missing (and_false (is_tier tier held))
          | inr (node, read) ↦
              let barred = get-IsQuarantined id tenant_id (some project_id) none db node q read in
              rw (read, unstanding tier node barred) (and_false (is_tier tier held))
        ]

    -- Quarantined content is in no tier: whichever way the status was set, no list of members
    -- names a node whose current row is quarantined.
    pub tier_members-quarantined :
        (project_id id : String) (tier : Tier) (given : Option String) (s : Shelves host)
        (members : List String)
        → IsQuarantined id s.tables
        → tier_members host keeper project_id tier given s ≡ ok members
        → contains members id ≡ false
    unfolding tier_members tier_of
    tier_members-quarantined project_id id tier given s members q listed =
        let (t, bound, h1) = >>=-eq-ok (effective_tenant host keeper given) _ listed in
        let (u, own, h2) = >>=-eq-ok (require_own_project host keeper project_id s.tables) _ h1 in
        let held = assigned host project_id id s.assignments in
        let known : tier_of host keeper project_id id s ≡ ok held = rw own refl in
        tier_members-tier_of host keeper project_id id tier given t s members held bound listed
          known
        ∙ barred_entry project_id id tier t s.tables held q

    promote-quarantined :
        (now : Time) (project_id id : String) (tier : Tier) (actor : String)
        (reason : Option String) (s after : Shelves host)
        → IsQuarantined id s.tables
        → promote host keeper now project_id id tier actor reason s ≢ ok after
    unfolding promote status_beq
    promote-quarantined now project_id id tier actor reason s after q h =
        let (node, read, h1) = >>=-eq-ok (require_node host keeper project_id id s.tables) _ h in
        let (u, own, h2) = >>=-eq-ok (require_own_project host keeper project_id s.tables) _ read in
        let found =
          unless_missing-ok (get host id keeper.tenant_id (some project_id) none s.tables)
            permission_error node h2 in
        let barred =
          get-IsQuarantined id keeper.tenant_id (some project_id) none s.tables node q found in
        absurd (let last = rw barred at h1 in ground (arith, last))

  module _ (manager memory : Keeper host) (journal : Journal host) (now : Time) where
    last_row-append :
        (project_id id : String) (rows : List (Assignment host)) (r : Assignment host)
        → r.project_id ≡ project_id
        → r.node_id ≡ id
        → last_row host project_id id (rows ++ r ∷ []) ≡ some r
    unfolding last_row
    last_row-append project_id id [] r p n = rw (p, n, ==_refl project_id, ==_refl id) refl
    last_row-append project_id id (x ∷ rows) r p n =
        rw (last_row-append project_id id rows r p n) refl

    demote_from_any_tier-none :
        (project_id id actor reason : String) (s : Shelves host) (r : Option Tier × Shelves host)
        → demote_from_any_tier host memory now project_id id actor reason s ≡ ok r
        → (r.1.tables ≡ s.tables) × (tier_of host memory project_id id r.1 ≡ ok none)
    unfolding demote_from_any_tier tier_of
    demote_from_any_tier-none project_id id actor reason s r h =
        let (node, read, h1) = >>=-eq-ok (require_node host memory project_id id s.tables) _ h in
        let (actual, known, h2) = >>=-eq-ok (tier_of host memory project_id id s) _ h1 in
        let (u, own, k1) =
          >>=-eq-ok (require_own_project host memory project_id s.tables) _ known in
        elim (Option-cases actual) [
          | inl nothing ↦
              let same : (none, s) ≡ r = ok_injective (none, s) r (rw nothing at h2) in
              (
                ap (λ (x : Option Tier × Shelves host). x.1.tables) (sym same),
                ap (λ (x : Option Tier × Shelves host). tier_of host memory project_id id x.1)
                      (sym same)
                    ∙ (known ∙ ap ok nothing),
              )
          | inr (tier, e) ↦
              let row : Assignment host = record {
                project_id = project_id;
                node_id = id;
                tier = tier;
                op = demoted;
                actor = actor;
                reason = some reason;
                at = now;
              } in
              let last : assigned host project_id id (s.assignments ++ row ∷ []) ≡ none =
                ap
                  (λ (o : Option (Assignment host)). elim o [
                    | none ↦ none
                    | some x ↦ tier_left host x
                  ])
                  (last_row-append project_id id s.assignments row refl refl) in
              let t = record_row host memory now project_id id tier demoted actor (some reason) s in
              let same : (some tier, t) ≡ r = ok_injective (some tier, t) r (rw e at h2) in
              (
                ap (λ (x : Option Tier × Shelves host). x.1.tables) (sym same),
                ap (λ (x : Option Tier × Shelves host). tier_of host memory project_id id x.1)
                      (sym same)
                    ∙ (rw own (ap ok last)),
              )
        ]

    write-IsQuarantined :
        (node stored : NodeRow host) (id : String) (reason : String) (event_id : Option String)
        (db after : Tables host)
        → IsVersioned host db.nodes
        → put_node host
            (status_write host node.entity_type node.tenant_id node.project_id
              (some id)
              (some Status.quarantined)
              (journal.quarantined_for reason now)
              event_id)
            ""
            now
            db
          ≡ ok (stored, after)
        → IsQuarantined id after × (stored.project_id ≡ node.project_id)
    write-IsQuarantined node stored id reason event_id db after v h =
        let w =
          status_write host node.entity_type node.tenant_id node.project_id (some id)
            (some Status.quarantined) (journal.quarantined_for reason now) event_id in
        let (same, rows) =
          put_node-refines host w "" now db after stored v (λ none_given. absurd (ground arith))
            h in
        let prev = previous host w db.nodes in
        (
          record {
            row = stored;
            current = rows id ∙ (rw (==_refl id) refl);
            status = ap (λ (r : NodeRow host). r.status) same ∙ node_row-status w id now prev refl;
          },
          ap (λ (r : NodeRow host). r.project_id) same ∙ node_row-project_id w id now prev,
        )

    -- Quarantine reaches every tier: after an accepted `quarantine`, in a versioned table, the node
    -- has no tier in its project, no tier of any project lists it, and no promotion of it, to
    -- whatever tier, by whomever and at whatever time, is accepted.
    pub quarantine_bars :
        (id actor reason : String) (event_id : Option String) (s after : Shelves host)
        (out : NodeRow host)
        → IsVersioned host s.tables.nodes
        → quarantine host manager memory journal now id actor reason event_id s ≡ ok (out, after)
        → (tier_of host memory out.project_id id after ≡ ok none)
          × ((project_id : String) (tier : Tier) (given : Option String) (members : List String)
              → tier_members host memory project_id tier given after ≡ ok members
              → contains members id ≡ false)
          × ((later : Time) (project_id : String) (tier : Tier) (who : String) (why : Option String)
                (r : Shelves host)
              → promote host memory later project_id id tier who why after ≢ ok r)
    unfolding quarantine
    quarantine_bars id actor reason event_id s after out v h =
        let (node, read, h1) = >>=-eq-ok (own_node host manager id none s.tables) _ h in
        let w =
          status_write host node.entity_type node.tenant_id node.project_id (some id)
            (some Status.quarantined) (journal.quarantined_for reason now) event_id in
        let (o, wrote, h2) = >>=-eq-ok (put_node host w "" now s.tables) _ h1 in
        let (d, vacated, h3) =
          >>=-eq-ok
            (demote_from_any_tier host memory now node.project_id id actor
              (labelled "quarantined: " reason) (record s { tables = o.1 }))
            (λ d. ok (o.0, d.1)) h2 in
        let (kept, gone) =
          demote_from_any_tier-none node.project_id id actor (labelled "quarantined: " reason)
            (record s { tables = o.1 }) d vacated in
        let same : (o.0, d.1) ≡ (out, after) = ok_injective (o.0, d.1) (out, after) h3 in
        let (q, project) = write-IsQuarantined node o.0 id reason event_id s.tables o.1 v wrote in
        let barred : IsQuarantined id after.tables =
          subst (IsQuarantined id)
            (sym kept ∙ ap (λ (x : NodeRow host × Shelves host). x.1.tables) same) q in
        let named : node.project_id ≡ out.project_id =
          sym project ∙ ap (λ (x : NodeRow host × Shelves host). x.0.project_id) same in
        (
          subst (λ k. tier_of host memory k id after ≡ ok none) named
              (subst (λ t. tier_of host memory node.project_id id t ≡ ok none)
                (ap (λ (x : NodeRow host × Shelves host). x.1) same) gone),
          (λ project_id tier given members listed.
              tier_members-quarantined memory project_id id tier given after members barred listed),
          (λ later project_id tier who why r promoted.
              promote-quarantined memory later project_id id tier who why after r barred promoted),
        )
