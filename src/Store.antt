-- ===== src/Store.antt =====
-- causal_continuity_engine/store.py: the hash-chained logs. `Rows` has the tables, `Log` the writes,
-- `Anchor` the published commitments; the other modules prove what the chain is good for.
pub mod Rows
pub mod Log
pub mod Anchor
pub mod Append
pub mod Checks
pub mod Tamper
pub mod Published
mod Samples
