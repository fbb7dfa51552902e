-- ===== src/Modules.antt =====
-- The modules that the broker loads: src/capabilities.ts and src/module-routes.ts.
pub mod Grants
pub mod Routes
mod Tests
