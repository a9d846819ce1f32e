-- ===== src/Invalidation/Settle/Bound.antt =====
-- What `_preflight_references` of invalidation.py has established.
use causal_continuity_engine.Prelude.{
  String, Bool, true, false, not, ◌||◌, ◌==◌, string_eq, List, [], ◌∷◌, map, none, some, In,
  contains, ok, raise_if, >>=-eq-ok, resolution_input_error, ◌≡◌, refl, ap, sym, ◌∙◌, inl, inr,
  arith, subst, Option-cases, Bool-cases, ==_sound,
}
use causal_continuity_engine.Core.{is_public_identifier}
use causal_continuity_engine.Graph.Rows.{Host, NodeRow, Tables}
use causal_continuity_engine.Graph.Nodes.{get}
use causal_continuity_engine.Invalidation.Confined.{get-node_id}
use causal_continuity_engine.Invalidation.Reached.{unless_missing-ok, ok_injective}
use causal_continuity_engine.Invalidation.Writes.{unless_missing}
use causal_continuity_engine.Invalidation.Settle.Stored.{AffectedEntry, Stored, Desk}
use causal_continuity_engine.Invalidation.Settle.Preflight.{
  References, resolve_entries, is_bad_path, is_premature, ends_of, is_only, is_distinct, same_set,
  check_references, preflight,
}

raised_false : (b : Bool) (u : Unit {0}) → raise_if b resolution_input_error ≡ ok u → b ≡ false
raised_false true u h = absurd (ground arith)
raised_false false u h = refl

raised_eq :
    (x y : String) (u : Unit {0}) → raise_if (not (x == y)) resolution_input_error ≡ ok u → x ≡ y
raised_eq x y u h = elim (Bool-cases (x == y)) [
  | inl e ↦ ==_sound x y e
  | inr e ↦ absurd (ground arith)
]

module _ (host : Host) where
  open host use {Time}

  abbrev pub IsOwn : AffectedEntry × NodeRow host → Type 0
  IsOwn x = x.1.node_id ≡ x.0.receipt.node_id

  resolve_entries-IsOwn :
      (inv : NodeRow host) (target : String) (seen : List String) (entries : List AffectedEntry)
      (db : Tables host) (l : List (AffectedEntry × NodeRow host))
      → resolve_entries host inv target seen entries db ≡ ok l
      → ((x : AffectedEntry × NodeRow host) → In x l → IsOwn x)
        × (map (λ (x : AffectedEntry × NodeRow host). x.0) l ≡ entries)
  unfolding resolve_entries
  resolve_entries-IsOwn inv target seen [] db l h =
      let nothing = ok_injective _ _ h in
      (
        λ x i. absurd (subst (In x) (sym nothing) i),
        ap (map (λ (x : AffectedEntry × NodeRow host). x.0)) (sym nothing),
      )
  resolve_entries-IsOwn inv target seen (e ∷ rest) db l h =
      let id = e.receipt.node_id in
      let (a, a', h1) =
        >>=-eq-ok (raise_if (not (is_public_identifier id)) resolution_input_error) _ h in
      let (b, b', h2) = >>=-eq-ok (raise_if (contains seen id) resolution_input_error) _ h1 in
      let (c, c', h3) = >>=-eq-ok (raise_if (e.entity_type == "") resolution_input_error) _ h2 in
      let (d, d', h4) =
        >>=-eq-ok (raise_if (is_bad_path target id e.path) resolution_input_error) _ h3 in
      let (node, found, h5) =
        >>=-eq-ok
          (unless_missing resolution_input_error
            (get host id (some inv.tenant_id) (some inv.project_id) (some e.entity_type) db))
          _ h4 in
      let (later, resolved, h6) =
        >>=-eq-ok (resolve_entries host inv target (id ∷ seen) rest db)
          (λ later. ok ((e, node) ∷ later)) h5 in
      let same = ok_injective _ _ h6 in
      let (own, parts) = resolve_entries-IsOwn inv target (id ∷ seen) rest db later resolved in
      let named = get-node_id host id _ _ _ db node (unless_missing-ok _ _ node found) in
      (
        (λ x i. elim (subst (In x) (sym same) i) [
          | inl first ↦ subst IsOwn (sym first) named
          | inr j ↦ own x j
        ]),
        ap (map (λ (x : AffectedEntry × NodeRow host). x.0)) (sym same) ∙ ap (λ r. e ∷ r) parts,
      )

  -- the references of a checked invalidation
  pub record IsChecked (inv : NodeRow host) (s : Stored) (r : References host) : Type 0 where
    pub own : (x : AffectedEntry × NodeRow host) → In x r.affected → IsOwn x
    pub entries : map (λ (x : AffectedEntry × NodeRow host). x.0) r.affected ≡ s.affected
    pub transition : r.transition ≡ s.target_transition
    pub named : r.target.node_id ≡ r.transition.node_id
    pub in_time : is_premature host inv s ≡ false

  module _ (desk : Desk host) (now : Time) where
    check_references-IsChecked :
        (inv : NodeRow host) (s : Stored) (db : Tables host) (r : References host)
        → check_references host desk now inv s db ≡ ok r
        → IsChecked inv s r
    unfolding check_references
    check_references-IsChecked inv s db r h =
        let (a, a', h1) =
          >>=-eq-ok (raise_if (not (is_public_identifier s.target_node_id)) resolution_input_error)
            _ h in
        let (b, b', h2) =
          >>=-eq-ok
            (raise_if (not (s.target_transition.node_id == s.target_node_id))
              resolution_input_error)
            _ h1 in
        let (target, found, h3) =
          >>=-eq-ok
            (unless_missing resolution_input_error
              (get host s.target_node_id (some inv.tenant_id) (some inv.project_id) none db))
            _ h2 in
        let (ends, c, h4) = >>=-eq-ok (ends_of host "invalidates" inv now db) _ h3 in
        let (d, d', h5) =
          >>=-eq-ok (raise_if (not (is_only s.target_node_id ends)) resolution_input_error) _ h4 in
        let (affected, listed, h6) =
          >>=-eq-ok
            (resolve_entries host inv s.target_node_id (s.target_node_id ∷ []) s.affected db) _
            h5 in
        let (hits, e, h7) = >>=-eq-ok (ends_of host "affects" inv now db) _ h6 in
        let (f, f', h8) =
          >>=-eq-ok
            (raise_if
              (not (is_distinct hits)
                || not (same_set hits (map (λ (e : AffectedEntry). e.receipt.node_id) s.affected)))
              resolution_input_error)
            _ h7 in
        let (g, g', h9) =
          >>=-eq-ok (raise_if (is_premature host inv s) resolution_input_error)
            (λ _.
              ok
                (record { target = target; transition = s.target_transition; affected = affected }))
            h8 in
        let (own, parts) =
          resolve_entries-IsOwn inv s.target_node_id _ s.affected db affected listed in
        subst (IsChecked inv s) (ok_injective _ _ h9) (record {
          own = own;
          entries = parts;
          transition = refl;
          named =
              get-node_id host s.target_node_id _ _ _ db target (unless_missing-ok _ _ target found)
              ∙ sym (raised_eq s.target_transition.node_id s.target_node_id b b');
          in_time = raised_false (is_premature host inv s) g g';
        })

    -- an accepted check is of the stored data
    pub preflight-IsChecked :
        (inv : NodeRow host) (db : Tables host) (r : References host)
        → preflight host desk now inv db ≡ ok r
        → (s : Stored) × IsChecked inv s r
    unfolding preflight
    preflight-IsChecked inv db r h =
        let (a, a', h1) =
          >>=-eq-ok (raise_if (not (inv.entity_type == "invalidation")) resolution_input_error) _
            h in
        elim (Option-cases (desk.stored inv.facts)) [
          | inl e ↦ absurd (ground arith)
          | inr (s, e) ↦
              let checked : check_references host desk now inv s db ≡ ok r = cc in
              (s, check_references-IsChecked inv s db r checked)
        ]
