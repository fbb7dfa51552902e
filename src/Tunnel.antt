-- ===== src/Tunnel.antt =====
-- src/tunnel.ts: the parent's side of the tunnels to its children.
pub mod Connection
pub mod Hub
mod Tests
