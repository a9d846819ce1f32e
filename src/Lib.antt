-- ===== src/Lib.antt =====
-- The Causal Continuity Engine (causal_continuity_engine/): a verification library for its core.
--
-- The engine keeps a hash-chained event log and audit log (store.py), derives from recorded
-- verifications whether a proof is verified (proof.py), grades how hard its evidence would be to
-- fake (evidence.py), moves assumptions through a lifecycle (ontology.py), keeps a versioned graph
-- of facts (graph.py), spreads invalidations along its edges (invalidation.py), assigns its nodes
-- to tiers of memory (memory.py), records outcomes and quarantines (partial.py), learns from
-- failures (learning.py), fits resume packets into their budget (resume.py), decides what an agent
-- may do (policy.py) and signs proofs so that a stranger can check them (lamport.py). The engine
-- and its transports call these parts. Invalidations are written on the graph, which reads the
-- events of the log, and move assumptions as the ontology allows; memory reads the nodes and edges
-- of the graph, and a quarantine writes to both. The other parts stand alone here.
--
-- Files and what they model:
--   Prelude            notation, Boolean tests, lists, results and text shared by all parts.
--   Core               core.py `is_public_identifier`, and text put behind a label.
--   Ontology           ontology.py: the closed vocabularies and `is_valid_transition`;
--                      Lifecycle has its theorems.
--   Proof.Status       proof.py `evaluate_status`, with `_worst`; Grouping, Worst and Results have
--                      the lemmas, Verdict and Stability the theorems.
--   Proof.Stale        proof.py `detect_stale`.
--   Store.Rows         store.py `_link`, `_chain_tip`, `verify_chain`; Rows.Links and
--                      Rows.Numbered their lemmas.
--   Store.Checks       store.py `_validate_stored_event`.
--   Store.Log          store.py `append_event`, `_append_event_in_transaction`, `audit`: a database
--                      is the record of its tables; a write returns the new one.
--   Store.Anchor       store.py `export_anchor`, `verify_against_anchor`.
--   Store.Append, Store.Tamper, Store.Published   the theorems on the three.
--   Graph.Table        graph.py `_current_row` and the update that closes a row, for both tables.
--   Graph.Rows         graph.py's tables, with store.py `get_event`.
--   Graph.Nodes        graph.py `put_node`, `get`; Written, Versions, Invariant, Beliefs and Total
--                      have the theorems.
--   Graph.Reads        graph.py `history`, `current`, `as_of`.
--   Graph.Edges        graph.py `put_edge`, `end_edge`; Sole and Ended have the theorems.
--   Graph.Adjacent     graph.py `out_edges`, `in_edges`.
--   Graph.Traverse     graph.py `dependents`; Relaxed has the lemmas, Ends, Walks, Answer and Order
--                      the theorems.
--   Invalidation.Impact   invalidation.py `classify`, `_severity`, the human gate; Matrix has its
--                      theorem.
--   Invalidation.Packet   what an invalidation records.
--   Invalidation.Writes   invalidation.py `_transition`, `_apply_impact` and the loop that applies.
--   Invalidation.Assess   invalidation.py `_fire` up to its first write; Reached has its theorem.
--   Invalidation.Fire  invalidation.py `fire`, `_fire`; Confined, Spread and Gate have the lemmas,
--                      Waits and Lifecycle the theorems.
--   Invalidation.Settle.Stored     what a stored invalidation holds, and the modes of `resolve`.
--   Invalidation.Settle.Preflight  invalidation.py `_preflight_references`; Bound has its lemmas.
--   Invalidation.Settle.Holds      invalidation.py `_nodes_held_by_others`, `_restore_node`,
--                      `_release_unheld`.
--   Invalidation.Settle.Confirm    invalidation.py `confirm`; Rejected has the theorem.
--   Invalidation.Settle.Resolve    invalidation.py `resolve`; Keeps and Held have the lemmas, Others
--                      the theorem.
--   Invalidation.Blocking   invalidation.py `blocking_invalidations`; Ends and Reach have the
--                      theorems.
--   Memory.Rows        memory.py's table of assignments, `_effective_tenant`, `_require_node`.
--   Memory.Provenance  memory.py `_has_real_provenance`; Walked and Answers have the
--                      lemmas, Rooted the theorems.
--   Memory.Tiers       memory.py `promote`, `demote`, `demote_from_any_tier`, `tier_of`,
--                      `tier_members`, `l0`; Shelved has the theorem.
--   Memory.Checkpoint  memory.py `checkpoint`, `last_safe_checkpoint`.
--   Partial            partial.py `record_outcome`, `quarantine`, `record_rollback`; Barred has the
--                      theorem.
--   Resume             resume.py `_fit_budget`; Trimmed has the lemmas, Fits the theorem.
--   Learning           learning.py `record_result`, `classify`, `compost`, `propose`, `approve`;
--                      Approval has the theorem.
--   Policy.Scope       policy.py `_normalise_scope`, `_scope_matches`.
--   Policy.Levels      policy.py `grant`, `revoke`, `active_grants`, `downgrade`,
--                      `clear_downgrades`, `active_downgrade_ceiling`, `effective_level`.
--   Policy.Decide      policy.py `decide`; Stricter has its theorems.
--   Evidence.Probe     evidence.py `run_mutation_probe`, `MutationReport`, the verdict of
--                      `run_determinism_probe`; Loop has the lemmas, Bound the theorem.
--   Evidence.Grading   evidence.py `grade_evidence`; Steps has the lemmas, Top the theorems.
--   Lamport            lamport.py `fingerprint`, `sign`, `verify`, `LamportSigner.sign` and
--                      `verify`, `verify_envelope_with`; Hex has bytes and their texts, Blocks the
--                      lemmas, RoundTrip the theorem.
--   The Runs modules evaluate the models on concrete inputs.
--
-- Parameters, for code that is not in the repository or is a text primitive of it: SHA-256 and the
-- rendering of a chain entry (a record `Hashing`; that SHA-256 has no collisions is a hypothesis
-- where a theorem needs it), `parse_ts`, `fnmatchcase`, the canonical-timestamp test and the
-- comparison of floats. For signatures, a record `Primitives` has SHA-256
-- on bytes, JSON values and core.py's `canonical_json`; that a digest has 32 bytes is a hypothesis.
-- For the graph, a record `Host` has the texts that denote times with their
-- order in SQLite and as instants, JSON objects with `update`, and floats with their order, product
-- and rounding. The JSON data of an invalidation is written and read by the records `Codec` and,
-- once it is to be settled, `Desk`, which also has graph.py's `may_mandate`; that of outcomes and
-- quarantines by a record `Journal`, and that of failures and skills by a record `Library`. A
-- record `Keeper` has what memory.py uses of its surroundings. `_tokens` is a function on packets
-- and their omissions. Times and fresh identifiers are arguments; one call of `fire`, `confirm` or
-- `resolve` reads the clock once. What copying a tree, destroying a file and running a check give
-- is a record `World`, in which a check is known by its name.
--
-- Not modelled: the audit entries of memory.py, partial.py and learning.py, the ranking of
-- `retrieve`, the export, the corrections and the retention sweep of memory, and recovery packets;
-- of resume packets, all but the fitting into the budget; of learning.py, `start`, `from_failure`,
-- the recovery texts and `clusters`; graph.py's `causal_path`, `provenance`, `current_edges`,
-- `stats` and the read of one node at a past time; of an invalidation, the texts for a human
-- reader, the audit entries, the downgrade of the policy, which is a flag, and the counters of
-- `metrics`; the checks of text for control characters and of RFC 3339 datetimes; the validation of
-- arguments above the writer lock of `_append_event`, and the text formats that
-- `_validate_stored_event` checks again; SQLite beyond commit and rollback of one
-- operation; schema migration; evidence blobs; the project configuration, which `decide` takes as
-- an argument together with the capped tenant maximum; of the reasons that `decide` lists, all but
-- the one that decides; `normalize_artifact_paths`, whose result the mutation probe takes.
--
-- Three functions take fuel. The `while` of `dependents` has as many rounds as a tree of the depth
-- asked for has nodes, each with as many children as there are stored edges, which is enough. The
-- `while` of `blocking_invalidations` takes one node from the frontier in each round, and there are
-- no more nodes than `max_nodes` and the candidate. `walk` of `_has_real_provenance` discovers a
-- node at each level, of which there are 256 at most. Every other loop is structural recursion on
-- the rows, verifications, grants, mutations or checks.

pub mod Prelude
pub mod Core
pub mod Ontology
pub mod Graph
pub mod Invalidation
pub mod Memory
pub mod Partial
pub mod Resume
pub mod Proof
pub mod Store
pub mod Policy
pub mod Evidence
pub mod Learning
pub mod Lamport
