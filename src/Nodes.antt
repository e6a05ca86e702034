-- ===== src/Nodes.antt =====
-- apps/gateway/src/nodes.ts, the registry of the machines' sockets, by topic.
pub mod State
pub mod Admin
pub mod Relay
pub mod Onboard
pub mod Messages
pub mod Admission
pub mod Revoked
pub mod Codes
pub mod Pairing
pub mod Channels
mod Tests
