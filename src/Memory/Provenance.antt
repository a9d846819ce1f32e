-- ===== src/Memory/Provenance.antt =====
-- The search for a root of a node's provenance, in memory.py: `_has_real_provenance`.
use causal_continuity_engine.Prelude.{
  ℕ, zero, suc, String, Bool, true, false, not, ◌&&◌, ◌||◌, ◌==◌, string_eq, if◌then◌else◌, List,
  [], ◌∷◌, ◌++◌, map, filter, Option, none, some, contains, lookup, insert, length, leb, Result, ok,
  err, Error, key_error, ◌>>=◌,
}
use causal_continuity_engine.Prelude.Text.{sorted_set}
use causal_continuity_engine.Ontology.{Status, status_eq}
use causal_continuity_engine.Graph.Rows.{Host, NodeRow, EdgeRow, Tables, get_event}
use causal_continuity_engine.Graph.Nodes.{get}
use causal_continuity_engine.Graph.Adjacent.{out_edges, in_edges}
use causal_continuity_engine.Invalidation.Settle.Stored.{is_one_of, has_text}
use causal_continuity_engine.Memory.Rows.{Keeper, require_node}

-- `memo` and `discovered`
pub record Notes : Type 0 where
  pub memo : List (String × Bool)
  pub discovered : List String

-- `max_nodes`
abbrev pub most_nodes : ℕ
most_nodes = 256

-- `memo[id] = result`
abbrev pub noted : String → Bool → Notes → Notes
noted id result n = record n { memo = insert id result n.memo }

-- `discovered.add(id)`
abbrev pub discover : String → Notes → Notes
discover id n = record n {
  discovered = if contains n.discovered id then n.discovered else id ∷ n.discovered;
}

-- what a walk gives: whether there is a root, and the notes; `none` where the fuel ran out
abbrev pub Walked : Type 0
Walked = Result (Option (Bool × Notes))

-- `any(walk(s) for s in sources)`
unfoldable pub any_walk : (String → Notes → Walked) → List String → Notes → Walked
any_walk walk [] n = ok (some (false, n))
any_walk walk (s ∷ rest) n = walk s n >>= λ found. elim found [
  | none ↦ ok none
  | some f ↦ elim f.0 [ true ↦ ok (some (true, f.1)) | false ↦ any_walk walk rest f.1 ]
]

-- the answer of a walk, noted for the node
abbrev pub keep : String → Option (Bool × Notes) → Walked
keep id none = ok none
keep id (some f) = ok (some (f.0, noted id f.0 f.1))

module _ (host : Host) (keeper : Keeper host) (now : host.Time) (db : Tables host)
    (tenant_id project_id : String) where
  -- `canonical_event_exists`
  unfoldable pub canonical_event_exists : String → Result Bool
  canonical_event_exists id = elim (get_event id (some (tenant_id, project_id)) db.events) [
    | ok e ↦ ok true
    | err error ↦ elim error [ key_error ↦ ok false | other ↦ err other ]
  ]

  -- `is_terminal`
  unfoldable pub is_terminal : NodeRow host → Bool
  is_terminal node =
      if is_one_of (Status.quarantined ∷ []) node.status
      then false
      else (has_text node.authority "human_decision" && keeper.may_mandate node)
        || (node.entity_type == "verification"
            && has_text node.authority "verifier_authoritative"
            && is_one_of (Status.other "passed" ∷ Status.verified ∷ []) node.status)
        || (node.entity_type == "evidence"
            && is_one_of (Status.other "recorded" ∷ Status.verified ∷ []) node.status)

  -- `current_event_id and canonical_event_exists(current_event_id)`
  unfoldable pub is_event_backed : NodeRow host → Result Bool
  is_event_backed node = elim node.event_id [
    | none ↦ ok false
    | some id ↦ if id == "" then ok false else canonical_event_exists id
  ]

  -- `sorted(sources)`
  unfoldable pub sources_of : String → Result (List String)
  sources_of id = do
    derived ← out_edges host id (some ("derived_from" ∷ [])) none now db
    backing ← in_edges host id (some ("supports" ∷ "verifies" ∷ [])) none now db
    ok (
        sorted_set (
          map (λ (e : EdgeRow host). e.dst_id) derived
          ++ map (λ (e : EdgeRow host). e.src_id) backing))

  -- a walk from a node that is there, with the walk from each of its sources
  unfoldable pub walk_node : (String → Notes → Walked) → String → NodeRow host → Notes → Walked
  walk_node walk id node n = elim (is_terminal node) [
    | true ↦ ok (some (true, noted id true n))
    | false ↦ is_event_backed node >>= λ backed. elim backed [
      | true ↦ ok (some (true, noted id true n))
      | false ↦ sources_of id >>= λ sources.
          any_walk walk (filter (λ s. not (s == id)) sources) n >>= keep id
    ]
  ]

  -- a walk from an identifier that no node has, but perhaps an event
  unfoldable pub walk_missing : Error → String → Notes → Walked
  walk_missing key_error id n =
      canonical_event_exists id >>= λ result. ok (some (result, noted id result n))
  walk_missing other id n = err other

  -- `walk`, on fuel
  unfoldable pub walk : ℕ → List String → String → Notes → Walked
  walk zero visiting id n = ok none
  walk (suc fuel) visiting id n = elim (lookup id n.memo) [
    | some known ↦ ok (some (known, n))
    | none ↦ elim (contains visiting id || leb most_nodes (length n.discovered)) [
      | true ↦ ok (some (false, n))
      | false ↦ elim (get host id (some tenant_id) (some project_id) none db) [
        | err e ↦ walk_missing e id n
        | ok node ↦ walk_node (λ s m. walk fuel (id ∷ visiting) s m) id node (discover id n)
      ]
    ]
  ]

-- `_has_real_provenance`; `none` is the model's own, where the fuel runs out
unfoldable pub has_real_provenance :
    (host : Host) → Keeper host → String → String → host.Time → Tables host → Result (Option Bool)
has_real_provenance host keeper project_id id now db = do
  node ← require_node host keeper project_id id db
  found ←
      walk host keeper now db node.tenant_id project_id (suc (suc most_nodes)) [] id
        (record { memo = []; discovered = [] })
  ok (elim found [ none ↦ none | some f ↦ some f.0 ])
