-- ===== src/Invalidation.antt =====
-- causal_continuity_engine/invalidation.py: firing, settling and querying invalidations.
pub mod Impact
pub mod Matrix
pub mod Packet
pub mod Writes
pub mod Assess
pub mod Reached
pub mod Fire
pub mod Confined
pub mod Spread
pub mod Lifecycle
pub mod Gate
pub mod Waits
pub mod Settle
pub mod Blocking
pub mod Runs
