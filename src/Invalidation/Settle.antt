-- ===== src/Invalidation/Settle.antt =====
-- causal_continuity_engine/invalidation.py: confirming, rejecting and resolving an invalidation.
pub mod Stored
pub mod Preflight
pub mod Holds
pub mod Confirm
pub mod Resolve
pub mod Bound
pub mod Keeps
pub mod Held
pub mod Others
pub mod Rejected
pub mod Runs
