-- ===== src/Runtime.antt =====
-- What the broker knows of the programs it drives: src/version.ts and src/model-registry.ts.
pub mod Version
pub mod Models
