-- ===== src/Invalidation/Settle/Resolve.antt =====
-- Resolving an invalidation, in invalidation.py: `resolve` and `_resolution_inputs`.
--
-- All writes of one call are in one transaction; the clock is read once, and the audit entry is not
-- of these tables.
use causal_continuity_engine.Prelude.{
  String, Bool, true, false, not, ◌&&◌, ◌||◌, ◌==◌, string_eq, if◌then◌else◌, List, [], ◌∷◌, Option,
  none, some, contains, Result, ok, err, ◌>>=◌, ◌>>◌, raise_if, value_error, permission_error,
  resolution_input_error,
}
use causal_continuity_engine.Core.{is_public_identifier}
use causal_continuity_engine.Ontology.{Status, status_eq}
use causal_continuity_engine.Graph.Rows.{Host, NodeRow, Tables, is_null}
use causal_continuity_engine.Graph.Nodes.{NodeWrite, put_node, get, is_malformed_id}
use causal_continuity_engine.Graph.Edges.{EdgeWrite, put_edge}
use causal_continuity_engine.Invalidation.Packet.{Receipt, Engine, Names}
use causal_continuity_engine.Invalidation.Writes.{status_write, transition, unless_missing}
use causal_continuity_engine.Invalidation.Settle.Stored.{
  AffectedEntry, Mode, replacement_evidence, narrowed_scope, superseding_decision, Resolution, Desk,
  is_one_of, has_text,
}
use causal_continuity_engine.Invalidation.Settle.Preflight.{References, preflight}
use causal_continuity_engine.Invalidation.Settle.Holds.{
  restored_status, nodes_held_by_others, restore_node, is_overlaid,
}
use causal_continuity_engine.Invalidation.Settle.Confirm.{is_unowned}

abbrev pub is_narrowing : Mode → Bool
is_narrowing mode = elim mode [ Mode.narrowed_scope ↦ true | other ↦ false ]

abbrev pub is_evidence : Mode → Bool
is_evidence mode = elim mode [ Mode.replacement_evidence ↦ true | other ↦ false ]

-- the statuses of a replacement that is not live
abbrev pub lost : List Status
lost =
    Status.quarantined ∷ Status.invalidated ∷ Status.superseded ∷ Status.rejected ∷ Status.failed
    ∷ []

module _ (host : Host) (engine : Engine host) (desk : Desk host) (names : Names)
    (now : host.Time) where
  open host use {Time, Facts, Scope, tenths}

  -- the arguments of `resolve`
  pub record Settlement : Type 0 where
    pub mode : Mode
    pub actor : String
    pub replacement_node_id : Option String
    pub narrowed : Option Scope
    pub note : String
    pub event_id : Option String

  -- a replacement that the mode does not accept
  unfoldable pub is_bad_replacement : Mode → String → NodeRow host → Bool
  is_bad_replacement mode target r =
      not (r.entity_type == (if is_evidence mode then "evidence" else "decision"))
      || is_one_of lost r.status
      || (is_evidence mode
          && (not (is_one_of (Status.verified ∷ []) r.status)
              || not (
                  has_text r.authority "verifier_authoritative"
                  || has_text r.authority "human_decision")))
      || (not (is_evidence mode) && not (is_one_of (Status.accepted ∷ Status.active ∷ []) r.status))
      || (not (is_evidence mode)
          && (not (has_text r.authority "human_decision") || not (desk.may_mandate r)))
      || not (
          has_text
            (desk.text_at (if is_evidence mode then "subject_node_id" else "supersedes_node_id")
              r.facts)
            target)

  -- `_resolution_inputs`: the replacement, where the mode has one
  unfoldable pub resolution_inputs :
      NodeRow host → String → Settlement → Tables host → Result (Option (NodeRow host))
  resolution_inputs inv target s db =
      if is_narrowing s.mode
      then (if not (is_null s.replacement_node_id)
            || elim s.narrowed [ none ↦ true | some scope ↦ desk.is_empty_scope scope ]
          then err resolution_input_error
          else ok none)
      else elim s.replacement_node_id [
        | none ↦ err resolution_input_error
        | some id ↦ do
          raise_if (not (is_null s.narrowed)) resolution_input_error
          raise_if (id == target || id == inv.node_id) resolution_input_error
          r ←
              unless_missing resolution_input_error
                (get host id (some inv.tenant_id) (some inv.project_id) none db)
          raise_if (is_bad_replacement s.mode target r) resolution_input_error
          ok (some r)
      ]

  -- the edge from the replacement to the target
  abbrev pub replacement_edge : NodeRow host → Settlement → String → NodeRow host → EdgeWrite host
  replacement_edge inv s target r = record {
    edge_type = if is_evidence s.mode then "supports" else "supersedes";
    src_id = r.node_id;
    dst_id = target;
    tenant_id = inv.tenant_id;
    project_id = inv.project_id;
    strength = tenths 10;
    facts = none;
    valid_from = none;
    valid_to = none;
    event_id = s.event_id;
    edge_id = none;
  }

  unfoldable pub link_replacement :
      NodeRow host
      → Settlement
      → String
      → Option (NodeRow host)
      → Tables host
      → Result (Tables host)
  link_replacement inv s target none db = ok db
  link_replacement inv s target (some r) db =
      put_edge host (replacement_edge inv s target r)
        (names.edge (replacement_edge inv s target r).edge_type target) now db
      >>= λ e. ok e.1

  -- a write that narrows the target, with a status or without, reopening its validity or not
  abbrev pub narrowing_write : NodeRow host → Settlement → Option Status → Bool → NodeWrite host
  narrowing_write target s status reopen =
      record (status_write host target.entity_type target.tenant_id target.project_id
        (some target.node_id) status (desk.narrowing s.narrowed reopen) s.event_id) {
          scope = s.narrowed;
          authority = some "human_decision";
          valid_from = if reopen then some now else none;
          reopen_validity = reopen;
        }

  abbrev pub is_reopened : NodeRow host → Bool
  is_reopened target = target.entity_type == "assumption" && desk.is_withdrawn target.facts

  -- a status change that must not be refused
  abbrev pub required :
      NodeRow host → Settlement → Status → Tables host → Result (Bool × Tables host)
  required target s status db =
      transition host engine.codec now target status s.event_id db >>= λ r.
      if r.0 then ok (false, r.1) else err resolution_input_error

  -- the target that no other invalidation holds: whether it is released, and the tables
  unfoldable pub settle_free :
      Mode → NodeRow host → Receipt → Settlement → Tables host → Result (Bool × Tables host)
  settle_free superseding_decision target receipt s db = required target s Status.superseded db
  settle_free replacement_evidence target receipt s db = required target s Status.resolved db
  settle_free narrowed_scope target receipt s db =
      put_node host
        (narrowing_write target s (some (restored_status host target receipt)) (is_reopened target))
        "" now db
      >>= λ r. ok (true, r.1)

  -- the target that another one holds: it is narrowed, and keeps its status
  unfoldable pub settle_held : NodeRow host → Settlement → Tables host → Result (Tables host)
  settle_held target s db =
      if is_narrowing s.mode
      then (put_node host (narrowing_write target s none false) "" now db >>= λ r. ok r.1)
      else ok db

  -- what becomes of the target: whether it is released, whether it is held, and the tables
  unfoldable pub settle_target :
      NodeRow host
      → Receipt
      → Settlement
      → List String
      → Tables host
      → Result (Bool × Bool × Tables host)
  settle_target target receipt s held db =
      if not (desk.may_mandate target)
      then ok (false, true, db)
      else if contains held target.node_id
      then (settle_held target s db >>= λ t. ok (false, true, t))
      else (settle_free s.mode target receipt s db >>= λ r. ok (r.0, false, r.1))

  -- the loop over the affected nodes: the released, the held, and the tables
  unfoldable pub settle_all :
      Settlement
      → List String
      → List (AffectedEntry × NodeRow host)
      → Tables host
      → Result (List String × List String × Tables host)
  settle_all s held [] db = ok ([], [], db)
  settle_all s held (x ∷ rest) db = elim (is_overlaid x.1.status) [
    | false ↦ settle_all s held rest db
    | true ↦ elim (contains held x.0.receipt.node_id) [
      | true ↦ do l ← settle_all s held rest db; ok (l.0, x.0.receipt.node_id ∷ l.1, l.2)
      | false ↦ do
        r ← restore_node host engine desk now x.1 x.0.receipt s.event_id db
        l ← settle_all s held rest r.1
        ok (
          (if r.0 then x.0.receipt.node_id ∷ l.0 else l.0),
          (if r.0 then l.1 else x.0.receipt.node_id ∷ l.1),
          l.2,
        )
    ]
  ]

  abbrev pub resolution_write :
      NodeRow host → String → Settlement → Resolution host → NodeWrite host
  resolution_write inv id s r =
      record (status_write host "invalidation" inv.tenant_id inv.project_id (some id)
        (some Status.resolved) (desk.resolution r) s.event_id) { authority = some "human_decision" }

  abbrev pub resolution_of :
      Settlement
      → Option (NodeRow host)
      → NodeRow host
      → NodeRow host
      → Bool × Bool × Tables host
      → List String × List String × Tables host
      → Resolution host
  resolution_of s replacement target after t l = record {
    actor = s.actor;
    resolved_at = now;
    mode = s.mode;
    note = s.note;
    replacement_node_id = s.replacement_node_id;
    replacement = replacement;
    narrowed = s.narrowed;
    from_status = target.status;
    to_status = after.status;
    released = if t.0 then target.node_id ∷ l.0 else l.0;
    held = if t.1 then target.node_id ∷ l.1 else l.1;
  }

  -- the writes of `resolve`, for the nodes that others hold
  unfoldable pub write_resolution :
      NodeRow host
      → String
      → Settlement
      → References host
      → Option (NodeRow host)
      → List String
      → Tables host
      → Result (Tables host)
  write_resolution inv id s p replacement held db = do
    linked ← link_replacement inv s p.target.node_id replacement db
    t ← settle_target p.target p.transition s held linked
    l ← settle_all s held p.affected t.2
    after ←
        get host p.target.node_id (some inv.tenant_id) (some inv.project_id)
          (some p.target.entity_type) l.2
    r ←
        put_node host (resolution_write inv id s (resolution_of s replacement p.target after t l))
          "" now l.2
    ok r.1

  -- `resolve` of the invalidation that it has read
  unfoldable pub resolve_read :
      String → Settlement → Tables host → NodeRow host → Result (NodeRow host × Tables host)
  resolve_read id s db inv = do
    raise_if (is_unowned host engine desk now inv.tenant_id) permission_error
    raise_if (not (inv.entity_type == "invalidation")) resolution_input_error
    raise_if (not (is_one_of (Status.opened ∷ []) inv.status)) resolution_input_error
    p ← preflight host desk now inv db
    replacement ← resolution_inputs inv p.target.node_id s db
    held ← nodes_held_by_others host engine desk now inv.project_id id inv.tenant_id db
    after ← write_resolution inv id s p replacement held db
    out ← get host id (some inv.tenant_id) (some inv.project_id) (some "invalidation") after
    ok (out, after)

  -- `resolve`
  unfoldable pub resolve : String → Settlement → Tables host → Result (NodeRow host × Tables host)
  resolve id s db = do
    raise_if (not (is_public_identifier id)) value_error
    raise_if (is_malformed_id s.replacement_node_id) value_error
    raise_if (is_malformed_id s.event_id) value_error
    raise_if (not (engine.is_human_text s.actor)) value_error
    raise_if (not (s.note == "") && not (engine.is_human_text s.note)) value_error
    get host id engine.tenant_id none none db >>= resolve_read id s db
