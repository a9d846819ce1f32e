-- ===== src/Evidence.antt =====
-- causal_continuity_engine/evidence.py: how hard the evidence of a proof would be to fake.
pub mod Probe
pub mod Grading
mod Runs
