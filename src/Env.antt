-- ===== src/Env.antt =====
-- src/env-registry.ts: the environment of spawned agents, set by hand or made by hooks.
pub mod Drop
pub mod Registry
mod Tests
