-- ===== src/Policy.antt =====
-- causal_continuity_engine/policy.py: autonomy grants, downgrades and the authorization decision.
--
-- A scope is its list of code points. `parse_ts` of core.py, `fnmatchcase` and the comparison of
-- floats are parameters; `now` is what `utcnow()` returns where the caller gives none.
pub mod Scope
pub mod Levels
pub mod Decide
mod Runs
