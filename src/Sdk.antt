-- ===== src/Sdk.antt =====
-- The client library for browsers, packages/client.
pub mod Channel
