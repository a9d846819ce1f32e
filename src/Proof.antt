-- ===== src/Proof.antt =====
-- causal_continuity_engine/proof.py
pub mod Status
pub mod Stale
mod Runs
