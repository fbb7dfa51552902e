-- ===== src/Agents.antt =====
-- What the broker concludes about workspaces and agents: src/reconcile.ts, src/readiness.ts,
-- src/spawn-readiness.ts, and the decision of src/transcript.ts.
pub mod Reconcile
pub mod Readiness
pub mod Turn
pub mod Spawn
