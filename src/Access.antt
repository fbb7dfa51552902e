-- ===== src/Access.antt =====
-- Who may call and what: src/policy.ts, src/auth.ts, src/auth-limit.ts, src/presence.ts and
-- src/errors.ts, a child module each, and the start of the handler of src/http.ts (Gate).
pub mod Policy
pub mod Bearer
pub mod Limiter
pub mod Presence
pub mod Errors
pub mod Gate
mod Tests
