-- ===== src/Memory/Answers.antt =====
-- What a walk of memory.py's `_has_real_provenance` answers.
use causal_continuity_engine.Prelude.{
  ℕ, zero, suc, ◌+◌, ◌≤◌, String, Bool, true, false, not, ◌||◌, ◌==◌, string_eq, List, [], ◌∷◌,
  filter, In-filter, Option, none, some, contains, contains_sound, contains_complete, lookup,
  length, leb, In, ok, err, Error, key_error, >>=-eq-ok, Result-cases, ◌≡◌, refl, ap, sym, ◌∙◌, inl,
  inr, arith, subst, Bool-cases, Option-cases,
}
use causal_continuity_engine.Graph.Rows.{Host, NodeRow, Tables}
use causal_continuity_engine.Graph.Nodes.{get}
use causal_continuity_engine.Invalidation.Reached.{ok_injective}
use causal_continuity_engine.Memory.Rows.{Keeper}
use causal_continuity_engine.Memory.Provenance.{
  Notes, Walked, most_nodes, noted, discover, any_walk, keep, canonical_event_exists, is_terminal,
  is_event_backed, sources_of, walk_node, walk_missing, walk,
}
use causal_continuity_engine.Memory.Walked.{
  IsRooted, event, terminal, backed, beyond, IsKept, IsAnswer, IsKept-noted,
}

module _ (host : Host) (keeper : Keeper host) (now : host.Time) (db : Tables host)
    (tenant_id project_id : String) where
  -- what is asked of a walk: a good answer from good notes of the size
  abbrev IsWalk : List String → ℕ → (Notes → Walked) → Type 0 → Type 0
  IsWalk visiting low w root =
      (n : Notes) (x : Option (Bool × Notes))
      → w n ≡ ok x
      → IsKept host keeper now db tenant_id project_id visiting n
      → low ≤ length n.discovered
      → IsAnswer host keeper now db tenant_id project_id visiting n root x

  any_walk-IsWalk :
      (visiting : List String) (low : ℕ) (w : String → Notes → Walked) (sources : List String)
      → ((s : String)
          → IsWalk visiting low (w s) (IsRooted host keeper now db tenant_id project_id s))
      → IsWalk visiting low
          (any_walk w sources)
          ((s : String) × In s sources × IsRooted host keeper now db tenant_id project_id s)
  unfolding any_walk
  any_walk-IsWalk visiting low w [] each n x h kept enough = record {
    answer = (false, n);
    given = sym (ok_injective (some (false, n)) x h);
    kept = kept;
    more = omega arith;
    holds = λ e. absurd (ground (arith, e));
  }
  any_walk-IsWalk visiting low w (s ∷ rest) each n x h kept enough =
      let (found, walked, h1) = >>=-eq-ok (w s n) _ h in
      let first = each s n found walked kept enough in
      let f = first.answer in
      elim (Bool-cases f.0) [
        | inl yes_found ↦ record {
          answer = (true, f.1);
          given = sym (ok_injective (some (true, f.1)) x (rw (first.given, yes_found) at h1));
          kept = first.kept;
          more = first.more;
          holds = λ e. (s, inl refl, first.holds yes_found);
        }
        | inr none_found ↦
            let later =
              any_walk-IsWalk visiting low w rest each f.1 x (rw (first.given, none_found) at h1)
                first.kept (let m = first.more in omega (arith, m, enough)) in
            record {
              answer = later.answer;
              given = later.given;
              kept = later.kept;
              more = (let m = first.more in let k = later.more in omega (arith, m, k));
              holds = λ e. (let (t, i, r) = later.holds e in (t, inr i, r));
            }
      ]

  abbrev Read : String → NodeRow host → Type 0
  Read id node = get host id (some tenant_id) (some project_id) none db ≡ ok node

  -- a node found to have a root
  noted_root :
      (visiting : List String) (id : String) (n : Notes) (x : Option (Bool × Notes))
      → some (true, noted id true n) ≡ x
      → IsRooted host keeper now db tenant_id project_id id
      → IsKept host keeper now db tenant_id project_id (id ∷ visiting) n
      → IsAnswer host keeper now db tenant_id project_id visiting n
          (IsRooted host keeper now db tenant_id project_id id)
          x
  noted_root visiting id n x h root kept = record {
    answer = (true, noted id true n);
    given = sym h;
    kept = IsKept-noted host keeper now db tenant_id project_id visiting id true n (λ e. root) kept;
    more = omega arith;
    holds = λ e. root;
  }

  walk_node-IsAnswer :
      (visiting : List String) (low : ℕ) (w : String → Notes → Walked) (id : String)
      (node : NodeRow host) (n : Notes) (x : Option (Bool × Notes))
      → Read id node
      → ((s : String)
          → IsWalk (id ∷ visiting) low (w s) (IsRooted host keeper now db tenant_id project_id s))
      → walk_node host keeper now db tenant_id project_id w id node n ≡ ok x
      → IsKept host keeper now db tenant_id project_id (id ∷ visiting) n
      → low ≤ length n.discovered
      → IsAnswer host keeper now db tenant_id project_id visiting n
          (IsRooted host keeper now db tenant_id project_id id)
          x
  unfolding walk_node
  walk_node-IsAnswer visiting low w id node n x read each h kept enough =
      elim (Bool-cases (is_terminal host keeper now db tenant_id project_id node)) [
        | inl ends ↦
            noted_root visiting id n x
              (ok_injective (some (true, noted id true n)) x (rw (walk_node, ends) at h))
              (terminal id node read ends) kept
        | inr open_ended ↦
            let (b, asked, h1) =
              >>=-eq-ok (is_event_backed host keeper now db tenant_id project_id node) _
                (rw (walk_node, open_ended) at h) in
            elim (Bool-cases b) [
              | inl found ↦
                  noted_root visiting id n x
                    (ok_injective (some (true, noted id true n)) x (rw found at h1))
                    (backed id node read (asked ∙ ap ok found)) kept
              | inr nothing ↦
                  let (sources, listed, h2) =
                    >>=-eq-ok (sources_of host keeper now db tenant_id project_id id) _
                      (rw nothing at h1) in
                  let others = filter (λ s. not (s == id)) sources in
                  let (y, walked, h3) = >>=-eq-ok (any_walk w others n) (keep id) h2 in
                  let a =
                    any_walk-IsWalk (id ∷ visiting) low w others each n y walked kept enough in
                  let f = a.answer in
                  let root : f.0 ≡ true → IsRooted host keeper now db tenant_id project_id id = λ e.
                    (let (s, i, r) = a.holds e in
                      beyond id s node sources read listed
                        (In-filter (λ t. not (t == id)) sources s i).0 r) in
                  record {
                    answer = (f.0, noted id f.0 f.1);
                    given = sym (ok_injective (some (f.0, noted id f.0 f.1)) x (rw a.given at h3));
                    kept =
                        IsKept-noted host keeper now db tenant_id project_id visiting id f.0 f.1
                          root a.kept;
                    more = a.more;
                    holds = root;
                  }
            ]
      ]

  -- what a walk is asked for, and from where
  abbrev Kept : List String → Notes → Type 0
  Kept = IsKept host keeper now db tenant_id project_id

  abbrev Rooted : String → Type 0
  Rooted = IsRooted host keeper now db tenant_id project_id

  Kept-visiting :
      (visiting : List String) (id : String) (n : Notes) → Kept visiting n → Kept (id ∷ visiting) n
  Kept-visiting visiting id n kept = record {
    rooted = kept.rooted;
    bounded = kept.bounded;
    accounted = λ j i. elim (kept.accounted j i) [ inl known ↦ inl known | inr on ↦ inr (inr on) ];
  }

  walk_missing-IsAnswer :
      (visiting : List String) (e : Error) (id : String) (n : Notes) (x : Option (Bool × Notes))
      → get host id (some tenant_id) (some project_id) none db ≡ err e
      → walk_missing host keeper now db tenant_id project_id e id n ≡ ok x
      → Kept visiting n
      → IsAnswer host keeper now db tenant_id project_id visiting n (Rooted id) x
  unfolding walk_missing
  walk_missing-IsAnswer visiting key_error id n x missing h kept =
      let (b, asked, h1) =
        >>=-eq-ok (canonical_event_exists host keeper now db tenant_id project_id id)
          (λ result. ok (some (result, noted id result n))) h in
      let root : b ≡ true → Rooted id = λ e. event id missing (asked ∙ ap ok e) in
      record {
        answer = (b, noted id b n);
        given = sym (ok_injective (some (b, noted id b n)) x h1);
        kept =
            IsKept-noted host keeper now db tenant_id project_id visiting id b n root
              (Kept-visiting visiting id n kept);
        more = omega arith;
        holds = root;
      }
  walk_missing-IsAnswer visiting other id n x missing h kept = absurd (ground arith)

  -- a node that is neither noted nor visited was not discovered before
  Kept-discover :
      (visiting : List String) (id : String) (n : Notes)
      → lookup id n.memo ≡ none
      → contains visiting id ≡ false
      → leb most_nodes (length n.discovered) ≡ false
      → Kept visiting n
      → Kept (id ∷ visiting) (discover id n)
        × (length (discover id n).discovered ≡ suc (length n.discovered))
  Kept-discover visiting id n unknown apart room kept =
      let new : contains n.discovered id ≡ false = elim (Bool-cases (contains n.discovered id)) [
        | inr e ↦ e
        | inl old ↦ elim (kept.accounted id (contains_sound n.discovered id old)) [
          | inl known ↦ absurd (ground (arith, known, unknown))
          | inr on ↦ absurd (ground (arith, contains_complete visiting id on, apart))
        ]
      ] in
      let grown : (discover id n).discovered ≡ id ∷ n.discovered = rw new refl in
      (
        record {
          rooted = kept.rooted;
          bounded =
              subst (λ (l : List String). length l ≤ most_nodes) (sym grown) (ground (arith, room));
          accounted = λ j i. elim (subst (In j) grown i) [
            | inl here ↦ inr (inl here)
            | inr old ↦ (Kept-visiting visiting id n kept).accounted j old
          ];
        },
        ap length grown,
      )

  pub walk-IsAnswer :
      (fuel : ℕ) (visiting : List String) (low : ℕ) (id : String)
      → suc most_nodes ≤ fuel + low
      → IsWalk visiting low
          (walk host keeper now db tenant_id project_id fuel visiting id)
          (Rooted id)
  unfolding walk
  walk-IsAnswer zero visiting low id enough n x h kept start =
      absurd (let few = kept.bounded in omega (arith, few, enough, start))
  walk-IsAnswer (suc fuel) visiting low id enough n x h kept start =
      elim (Option-cases (lookup id n.memo)) [
        | inr (known, e) ↦ record {
          answer = (known, n);
          given = sym (ok_injective (some (known, n)) x (rw (walk, e) at h));
          kept = kept;
          more = omega arith;
          holds = λ held. kept.rooted id (e ∙ ap some held);
        }
        | inl unknown ↦
            elim (Bool-cases (contains visiting id || leb most_nodes (length n.discovered))) [
              | inl stops ↦ record {
                answer = (false, n);
                given = sym (ok_injective (some (false, n)) x (rw (walk, unknown, stops) at h));
                kept = kept;
                more = omega arith;
                holds = λ e. absurd (ground (arith, e));
              }
              | inr goes ↦
                  elim (Result-cases (get host id (some tenant_id) (some project_id) none db)) [
                    | inl (e, missing) ↦
                        walk_missing-IsAnswer visiting e id n x missing
                          (rw (walk, unknown, goes, missing) at h) kept
                    | inr (node, read) ↦
                        let apart : contains visiting id ≡ false = ground (arith, goes) in
                        let room : leb most_nodes (length n.discovered) ≡ false =
                          ground (arith, goes) in
                        let (kept_on, grown) =
                          Kept-discover visiting id n unknown apart room kept in
                        let a =
                          walk_node-IsAnswer visiting (suc low)
                            (walk host keeper now db tenant_id project_id fuel (id ∷ visiting)) id
                            node (discover id n) x read
                            (λ s.
                              walk-IsAnswer fuel (id ∷ visiting) (suc low) s
                                (omega (arith, enough)))
                            (rw (walk, unknown, goes, read) at h) kept_on
                            (omega (arith, grown, start)) in
                        record {
                          answer = a.answer;
                          given = a.given;
                          kept = a.kept;
                          more = (let m = a.more in omega (arith, m, grown));
                          holds = a.holds;
                        }
                  ]
            ]
      ]
