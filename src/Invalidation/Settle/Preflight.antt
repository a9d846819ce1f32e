-- ===== src/Invalidation/Settle/Preflight.antt =====
-- The check of an invalidation's references, in invalidation.py: `_preflight_references`.
use causal_continuity_engine.Prelude.{
  String, Bool, true, false, not, ◌&&◌, ◌||◌, ◌==◌, string_eq, List, [], ◌∷◌, map, Option, none,
  some, contains, any, all, Result, ok, err, ◌>>=◌, ◌>>◌, raise_if, resolution_input_error,
}
use causal_continuity_engine.Core.{is_public_identifier}
use causal_continuity_engine.Ontology.{Status, status_eq}
use causal_continuity_engine.Graph.Rows.{Host, NodeRow, EdgeRow, Tables, is_null}
use causal_continuity_engine.Graph.Nodes.{get}
use causal_continuity_engine.Graph.Adjacent.{out_edges}
use causal_continuity_engine.Invalidation.Packet.{Receipt}
use causal_continuity_engine.Invalidation.Writes.{unless_missing}
use causal_continuity_engine.Invalidation.Settle.Stored.{AffectedEntry, Stored, Desk, is_one_of}

-- the last of a list that starts with `x`
abbrev pub last_of : String → List String → String
last_of x [] = x
last_of x (y ∷ rest) = last_of y rest

-- a path that does not lead from the target to the node, or names no identifiers
unfoldable pub is_bad_path : String → String → Option (List String) → Bool
is_bad_path target id none = false
is_bad_path target id (some []) = true
is_bad_path target id (some (x ∷ rest)) =
    not (x == target) || not (last_of x rest == id) || not (all is_public_identifier (x ∷ rest))

-- a receipt of an impact that was applied
abbrev pub is_applied : Receipt → Bool
is_applied r = r.impact_applied || not (is_null r.applied_status)

-- texts without a repetition
unfoldable pub is_distinct : List String → Bool
is_distinct [] = true
is_distinct (x ∷ xs) = not (contains xs x) && is_distinct xs

-- `set(xs) == set(ys)`
abbrev pub same_set : List String → List String → Bool
same_set xs ys = all (contains ys) xs && all (contains xs) ys

-- the one element of a list
abbrev pub is_only : String → List String → Bool
is_only x [] = false
is_only x (y ∷ []) = y == x
is_only x (y ∷ z ∷ rest) = false

module _ (host : Host) where
  open host use {Time}

  -- what the check returns: the target, its receipt, and the affected nodes with theirs
  pub record References : Type 0 where
    pub target : NodeRow host
    pub transition : Receipt
    pub affected : List (AffectedEntry × NodeRow host)

  -- `nodes`
  abbrev pub nodes_of : References → List (String × NodeRow host)
  nodes_of r =
      (r.transition.node_id, r.target)
      ∷ map (λ (x : AffectedEntry × NodeRow host). (x.0.receipt.node_id, x.1)) r.affected

  -- the entries of `affected` with their nodes; `seen` are the identifiers before them
  unfoldable pub resolve_entries :
      NodeRow host
      → String
      → List String
      → List AffectedEntry
      → Tables host
      → Result (List (AffectedEntry × NodeRow host))
  resolve_entries inv target seen [] db = ok []
  resolve_entries inv target seen (e ∷ rest) db = do
    raise_if (not (is_public_identifier e.receipt.node_id)) resolution_input_error
    raise_if (contains seen e.receipt.node_id) resolution_input_error
    raise_if (e.entity_type == "") resolution_input_error
    raise_if (is_bad_path target e.receipt.node_id e.path) resolution_input_error
    node ← unless_missing resolution_input_error (
        get host e.receipt.node_id (some inv.tenant_id) (some inv.project_id) (some e.entity_type)
          db)
    later ← resolve_entries inv target (e.receipt.node_id ∷ seen) rest db
    ok ((e, node) ∷ later)

  -- the edges of one type that leave the invalidation, by their ends
  abbrev pub ends_of : String → NodeRow host → Time → Tables host → Result (List String)
  ends_of kind inv now db = do
    edges ← out_edges host inv.node_id (some (kind ∷ [])) none now db
    ok (map (λ (e : EdgeRow host). e.dst_id) edges)

  -- a pending invalidation with an applied receipt
  abbrev pub is_premature : NodeRow host → Stored → Bool
  is_premature inv s =
      is_one_of (Status.pending_confirmation ∷ []) inv.status
      && (is_applied s.target_transition
          || any (λ (e : AffectedEntry). is_applied e.receipt) s.affected)

  module _ (desk : Desk host) (now : Time) where
    -- `_preflight_references`, of data that has the types asked for
    unfoldable pub check_references : NodeRow host → Stored → Tables host → Result References
    check_references inv s db = do
      raise_if (not (is_public_identifier s.target_node_id)) resolution_input_error
      raise_if (not (s.target_transition.node_id == s.target_node_id)) resolution_input_error
      target ←
          unless_missing resolution_input_error
            (get host s.target_node_id (some inv.tenant_id) (some inv.project_id) none db)
      ends ← ends_of "invalidates" inv now db
      raise_if (not (is_only s.target_node_id ends)) resolution_input_error
      affected ← resolve_entries inv s.target_node_id (s.target_node_id ∷ []) s.affected db
      hits ← ends_of "affects" inv now db
      raise_if
          (not (is_distinct hits)
            || not (same_set hits (map (λ (e : AffectedEntry). e.receipt.node_id) s.affected)))
          resolution_input_error
      raise_if (is_premature inv s) resolution_input_error
      ok (record { target = target; transition = s.target_transition; affected = affected })

    -- `_preflight_references`
    unfoldable pub preflight : NodeRow host → Tables host → Result References
    preflight inv db = do
      raise_if (not (inv.entity_type == "invalidation")) resolution_input_error
      elim (desk.stored inv.facts) [
        | none ↦ err resolution_input_error
        | some s ↦ check_references inv s db
      ]
