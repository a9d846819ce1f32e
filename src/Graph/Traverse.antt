-- ===== src/Graph/Traverse.antt =====
-- The bounded traversal of graph.py: `dependents`.
--
-- The `while` loop takes fuel, as much as `rounds` counts. The clock is read once.
pub mod Relaxed
pub mod Ends
pub mod Walks
pub mod Answer
pub mod Order
pub mod Runs
use causal_continuity_engine.Prelude.{
  ℕ, zero, suc, ◌+◌, ◌-◌, ◌*◌, String, Bool, true, false, not, ◌&&◌, ◌||◌, ◌==◌, string_eq, nat_eq,
  ltb, leb, if◌then◌else◌, List, [], ◌∷◌, ◌++◌, map, Option, none, some, any, contains, is_empty,
  length, lookup, insert, Result, ok, err, ◌>>=◌, ◌>>◌, raise_if, value_error, key_error,
  traversal_budget_exceeded,
}
use causal_continuity_engine.Core.{is_public_identifier}
use causal_continuity_engine.Ontology.{edge_types, propagation_edges}
use causal_continuity_engine.Graph.Rows.{Host, EdgeRow, Tables, outside_unit}
use causal_continuity_engine.Graph.Adjacent.{in_edges}

module _ (host : Host) where
  open host use {Float}

  -- an entry of the answer
  pub record Hit : Type 0 where
    pub node_id : String
    pub depth : ℕ
    pub strength : Float
    pub path : List String
    pub via_edge : String

  -- an entry of `frontier`
  pub record Visit : Type 0 where
    pub current : String
    pub depth : ℕ
    pub strength : Float
    pub path : List String

  -- the variables of the loop
  pub record Search : Type 0 where
    pub seen : List (String × Float)
    pub best : List (String × Hit)
    pub frontier : List Visit

  -- the arguments that bound it
  pub record Bounds : Type 0 where
    pub max_depth : ℕ
    pub max_nodes : ℕ
    pub weights : List (String × Float)
    pub min_strength : Float

module _ (host : Host) (bounds : Bounds host) where
  open host use {Float, lt, times, tenths, rounded}
  open bounds use {max_depth, max_nodes, weights, min_strength}

  -- `nxt in seen and seen[nxt] >= s`
  abbrev pub is_weaker : String → Float → List (String × Float) → Bool
  is_weaker nxt s seen = elim (lookup nxt seen) [ none ↦ false | some known ↦ not (lt known s) ]

  abbrev pub hit : Visit host → EdgeRow host → Float → Hit host
  hit e edge s = record {
    node_id = edge.src_id;
    depth = suc e.depth;
    strength = rounded s;
    path = e.path ++ edge.src_id ∷ [];
    via_edge = edge.edge_type;
  }

  abbrev pub entry : Visit host → EdgeRow host → Float → Visit host
  entry e edge s = record {
    current = edge.src_id;
    depth = suc e.depth;
    strength = s;
    path = e.path ++ edge.src_id ∷ [];
  }

  -- the writes of the inner loop's body
  abbrev pub record_hit : Visit host → EdgeRow host → Float → Search host → Search host
  record_hit e edge s search = record {
    seen = insert edge.src_id s search.seen;
    best = insert edge.src_id (hit e edge s) search.best;
    frontier = search.frontier ++ entry e edge s ∷ [];
  }

  -- the inner loop's body
  unfoldable pub relax : Visit host → EdgeRow host → Search host → Result (Search host)
  relax e edge search = elim (lookup edge.edge_type weights) [
    | none ↦ err key_error
    | some weight ↦
        let s = times (times e.strength weight) edge.strength in
        if lt s min_strength || is_weaker edge.src_id s search.seen
        then ok search
        else if ltb max_nodes (length (record_hit e edge s search).best)
        then err traversal_budget_exceeded
        else ok (record_hit e edge s search)
  ]

  unfoldable pub relax_all : Visit host → List (EdgeRow host) → Search host → Result (Search host)
  relax_all e [] search = ok search
  relax_all e (edge ∷ edges) search = do next ← relax e edge search; relax_all e edges next

  module _ (edges_into : String → Result (List (EdgeRow host))) where
    -- one round: `e` left the frontier, whose rest `search` holds
    unfoldable pub visit : Visit host → Search host → Result (Search host)
    visit e search =
        if leb max_depth e.depth
        then ok search
        else do edges ← edges_into e.current; relax_all e edges search

    -- the `while` loop; `none` where the fuel runs out
    unfoldable pub traverse : ℕ → Search host → Option (Result (Search host))
    traverse zero search = elim search.frontier [ [] ↦ some (ok search) | e ∷ rest ↦ none ]
    traverse (suc fuel) search = elim search.frontier [
      | [] ↦ some (ok search)
      | e ∷ rest ↦ elim (visit e (record search { frontier = rest })) [
        | err error ↦ some (err error)
        | ok next ↦ traverse fuel next
      ]
    ]

  abbrev pub start : String → Search host
  start node_id = record {
    seen = (node_id, tenths 10) ∷ [];
    best = [];
    frontier =
        (record { current = node_id; depth = 0; strength = tenths 10; path = node_id ∷ [] }) ∷ [];
  }

-- The rounds that an entry can cause, with `k` levels left and at most `width` edges into a node.
unfoldable pub rounds : (width k : ℕ) → ℕ
rounds width zero = 1
rounds width (suc k) = suc (width * rounds width k)

module _ (host : Host) where
  open host use {Time, Float, lt, tenths}

  -- the sort key `(depth, -strength)`
  abbrev pub sorts_before : Hit host → Hit host → Bool
  sorts_before x y = ltb x.depth y.depth || (x.depth == y.depth && lt y.strength x.strength)

  unfoldable pub insert_hit : Hit host → List (Hit host) → List (Hit host)
  insert_hit x [] = x ∷ []
  insert_hit x (y ∷ hits) =
      let rest = insert_hit x hits in if sorts_before y x then y ∷ rest else x ∷ y ∷ hits

  -- `sorted(best.values(), …)`, which is stable, as an insertion sort that keeps the order of equal
  -- keys
  unfoldable pub sort_hits : List (String × Hit host) → List (Hit host)
  sort_hits [] = []
  sort_hits (x ∷ best) = insert_hit x.1 (sort_hits best)

  -- `PROPAGATION_EDGES`
  abbrev pub default_weights : List (String × Float)
  default_weights = map (λ w. (w.0, tenths w.1)) propagation_edges

  abbrev pub bad_weight : String × Float → Bool
  bad_weight w = not (contains edge_types w.0) || outside_unit host w.1

  -- the answer of the loop
  abbrev pub sorted_answer : Option (Result (Search host)) → Option (Result (List (Hit host)))
  sorted_answer none = none
  sorted_answer (some (err e)) = some (err e)
  sorted_answer (some (ok search)) = some (ok (sort_hits search.best))

  -- `dependents`, with the defaults of the caller written out
  unfoldable pub dependents :
      Bounds host → String → Time → Tables host → Option (Result (List (Hit host)))
  dependents bounds node_id now db =
      if not (is_public_identifier node_id)
        || outside_unit host bounds.min_strength
        || any bad_weight bounds.weights
      then some (err value_error)
      else if is_empty bounds.weights
      then some (ok [])
      else sorted_answer (
          traverse host bounds
            (λ id. in_edges host id (some (map (λ w. w.0) bounds.weights)) none now db)
            (rounds (length db.edges) bounds.max_depth) (start host bounds node_id))
