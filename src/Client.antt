-- ===== src/Client.antt =====
-- src/ws-server.ts: the sockets of the clients, on /events.
pub mod Subscriptions
pub mod Socket
pub mod Upgrade
mod Tests
