-- ===== src/Connections.antt =====
-- src/baileys/connectionsHandler.ts: the registry of a process's connections, one for each phone,
-- and the operations on it that hold a slot per phone.
pub mod Options
pub mod Registry
pub mod Slots
pub mod System
pub mod Single
pub mod Exclusion
pub mod Restarts
pub mod Webhooks
mod Tests
