-- ===== src/Invalidation/Waits.antt =====
-- Which nodes an invalidation may change, in invalidation.py's `fire`.
use causal_continuity_engine.Invalidation.Gate.{
  link_invalidation-Confined, note_refused-Confined, apply_changes-Confined,
}
use causal_continuity_engine.Prelude.{
  String, Bool, true, false, string_eq, if◌then◌else◌, List, [], none, some, In, Result, ok, ◌>>=◌,
  raise_if, >>=-eq-ok, ◌≡◌, ◌≢◌, refl, ap, sym, ◌∙◌, arith, subst, value_error, permission_error,
}
use causal_continuity_engine.Graph.Rows.{Host, NodeRow, Tables}
use causal_continuity_engine.Graph.Nodes.{put_node, get, current_node}
use causal_continuity_engine.Graph.Nodes.Versions.{IsVersioned}
use causal_continuity_engine.Graph.Nodes.Invariant.{IsFresh}
use causal_continuity_engine.Invalidation.Packet.{Affected, Explanation, Engine, Trigger, Names}
use causal_continuity_engine.Invalidation.Writes.{announce_all}
use causal_continuity_engine.Invalidation.Assess.{assess}
use causal_continuity_engine.Invalidation.Fire.{
  invalidation_write, link_invalidation, apply_changes, note_refused, write_invalidation,
  fire_locked, fire, is_malformed_request, is_foreign,
}
use causal_continuity_engine.Invalidation.Confined.{
  Confined, Confined-trans, put_node-Confined_at, get-node_id, put_node-node_id,
}
use causal_continuity_engine.Invalidation.Spread.{announce_all-Confined, Within}

module _ (host : Host) (engine : Engine host) (names : Names) (now : host.Time) where
  -- the changes of `write_invalidation`, as a human is asked or not
  abbrev changes :
      Trigger host
      → NodeRow host
      → List (Affected host)
      → Explanation host
      → String
      → Tables host
      → Bool
      → Result (List String × Tables host)
  changes q target classified e inv linked human =
      if human
      then (announce_all host engine.codec now names q inv classified linked >>= λ t. ok ([], t))
      else apply_changes host engine names now q inv target e.target_transition classified linked

  module _ (P : String → Type 0) where
    changes-Confined :
        (q : Trigger host) (target : NodeRow host) (classified : List (Affected host))
        (e : Explanation host) (inv : String) (linked : Tables host) (human : Bool)
        (r : List String × Tables host)
        → P inv
        → (human ≡ false → P target.node_id × Within host engine.codec now P classified)
        → changes q target classified e inv linked human ≡ ok r
        → Confined host P linked r.1
    changes-Confined q target classified e inv linked true r p allowed h =
        let (t, announced, h1) =
          >>=-eq-ok (announce_all host engine.codec now names q inv classified linked)
            (λ t. ok ([], t)) h in
        let same : r.1 ≡ t = ground arith in
        subst (λ t. Confined host P linked t) (sym same)
          (announce_all-Confined host engine.codec now P names q inv classified linked t announced)
    changes-Confined q target classified e inv linked false r p allowed h =
        let (pt, within) = allowed refl in
        apply_changes-Confined host engine names now P q inv target e.target_transition classified
          linked r p pt within h

    write_invalidation-Confined :
        (q : Trigger host) (target : NodeRow host) (classified : List (Affected host))
        (e : Explanation host) (db : Tables host) (r : String × Tables host)
        → IsFresh host
            (invalidation_write host engine.codec q target classified e)
            names.invalidation
            db.nodes
        → P r.0
        → (e.requires_human_confirmation ≡ false
            → P target.node_id × Within host engine.codec now P classified)
        → write_invalidation host engine names now q target classified e db ≡ ok r
        → Confined host P db r.1
    unfolding write_invalidation
    write_invalidation-Confined q target classified e db r unused p allowed h =
        let w = invalidation_write host engine.codec q target classified e in
        let (s, wrote, h1) = >>=-eq-ok (put_node host w names.invalidation now db) _ h in
        let inv = s.0.node_id in
        let (l, linked, h2) = >>=-eq-ok (link_invalidation host engine names now q inv s.1) _ h1 in
        let (c, changed, h3) =
          >>=-eq-ok (changes q target classified e inv l e.requires_human_confirmation) _ h2 in
        let (n, noted, h4) =
          >>=-eq-ok (note_refused host engine names now q inv c.0 c.1) (λ n. ok (inv, n)) h3 in
        let named : r.0 ≡ inv = ground arith in
        let same : r.1 ≡ n = ground arith in
        let pi = subst P named p in
        let at_write =
          subst P (put_node-node_id host w names.invalidation now db s.1 s.0 wrote) pi in
        subst (λ t. Confined host P db t) (sym same)
          (Confined-trans host db s.1 n
            (put_node-Confined_at host w names.invalidation now db s.1 s.0 unused at_write wrote)
            (Confined-trans host s.1 l n
              (link_invalidation-Confined host engine names now P q inv s.1 l linked)
              (Confined-trans host l c.1 n
                (changes-Confined q target classified e inv l e.requires_human_confirmation c pi
                  allowed changed)
                (note_refused-Confined host engine names now P q inv c.0 c.1 n pi noted))))

    -- the writes of an accepted `fire`
    fire-Confined :
        (q : Trigger host) (db after : Tables host) (inv : NodeRow host) (down : Bool)
        (target : NodeRow host) (classified : List (Affected host)) (e : Explanation host)
        → (q.invalidation_id ≡ none → current_node host names.invalidation db.nodes ≡ none)
        → P inv.node_id
        → assess host engine now q db ≡ ok (target, classified, e)
        → (e.requires_human_confirmation ≡ false
            → P target.node_id × Within host engine.codec now P classified)
        → fire host engine names now q db ≡ ok (inv, down, after)
        → Confined host P db after
    unfolding fire fire_locked
    fire-Confined q db after inv down target classified e unused p known allowed h =
        let (u, a, h1) =
          >>=-eq-ok (raise_if (is_malformed_request host engine names now q) value_error) _ h in
        let (v, b, h2) =
          >>=-eq-ok (raise_if (is_foreign host engine names now q.tenant_id) permission_error) _
            h1 in
        let (k, assessed, h3) = >>=-eq-ok (assess host engine now q db) _ h2 in
        let (w, wrote, h4) =
          >>=-eq-ok (write_invalidation host engine names now q k.0 k.1 k.2 db) _ h3 in
        let (i, read, h5) =
          >>=-eq-ok (get host w.0 (some q.tenant_id) (some q.project_id) (some "invalidation") w.1)
            _ h4 in
        let same_inv : i ≡ inv = ground arith in
        let same : after ≡ w.1 = ground arith in
        let same_k : k ≡ (target, classified, e) = ground arith in
        let named = get-node_id host w.0 _ _ _ w.1 i read in
        let allowed_k =
          subst
            (λ (x : NodeRow host × List (Affected host) × Explanation host).
              x.2.requires_human_confirmation ≡ false
              → P x.0.node_id × Within host engine.codec now P x.1)
            (sym same_k) allowed in
        subst (λ t. Confined host P db t) (sym same)
          (write_invalidation-Confined q k.0 k.1 k.2 db w unused
            (subst P (sym (ap (λ (x : NodeRow host). x.node_id) same_inv) ∙ named) p) allowed_k
            wrote)

  -- An accepted `fire` whose assessment asks for a human changes no standing node: where the tables
  -- are versioned and a generated identifier is new, every node but the invalidation itself has the
  -- current row that it had.
  pub fire_waits :
      (q : Trigger host) (db after : Tables host) (inv : NodeRow host) (down : Bool)
      (target : NodeRow host) (classified : List (Affected host)) (e : Explanation host)
      (id : String)
      → IsVersioned host db.nodes
      → (q.invalidation_id ≡ none → current_node host names.invalidation db.nodes ≡ none)
      → assess host engine now q db ≡ ok (target, classified, e)
      → e.requires_human_confirmation ≡ true
      → fire host engine names now q db ≡ ok (inv, down, after)
      → id ≢ inv.node_id
      → current_node host id after.nodes ≡ current_node host id db.nodes
  fire_waits q db after inv down target classified e id v unused known human h other =
      let done =
        fire-Confined (λ id. id ≡ inv.node_id) q db after inv down target classified e unused refl
          known (λ no. absurd (ground arith)) h in
      done.unchanged v id other

  -- An accepted `fire` keeps the table versioned and changes only the invalidation, its target and
  -- the nodes that the assessment found affected: every other node has the current row that it had,
  -- where the table was versioned and a generated identifier is new.
  pub fire_spreads :
      (q : Trigger host) (db after : Tables host) (inv : NodeRow host) (down : Bool)
      (target : NodeRow host) (classified : List (Affected host)) (e : Explanation host)
      → IsVersioned host db.nodes
      → (q.invalidation_id ≡ none → current_node host names.invalidation db.nodes ≡ none)
      → assess host engine now q db ≡ ok (target, classified, e)
      → fire host engine names now q db ≡ ok (inv, down, after)
      → IsVersioned host after.nodes
        × ((id : String)
            → id ≢ inv.node_id
            → id ≢ target.node_id
            → ((c : Affected host) → In c classified → id ≢ c.receipt.node_id)
            → current_node host id after.nodes ≡ current_node host id db.nodes)
  fire_spreads q db after inv down target classified e v unused known h = (
    (fire-Confined (λ id. Unit {0}) q db after inv down target classified e unused tt known
          (λ no. (tt, λ c i. tt)) h).versioned
        v,
    (λ id not_inv not_target not_hit.
        let done =
          fire-Confined (λ x. id ≢ x) q db after inv down target classified e unused not_inv known
            (λ no. (not_target, not_hit)) h in
        done.unchanged v id (λ differs. differs refl)),
  )
