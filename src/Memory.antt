-- ===== src/Memory.antt =====
-- causal_continuity_engine/memory.py: the tiers of memory.
pub mod Rows
pub mod Provenance
pub mod Tiers
pub mod Walked
pub mod Answers
pub mod Rooted
pub mod Shelved
pub mod Checkpoint
pub mod Runs
