-- ===== src/Sync.antt =====
-- Incoming events of the clients, src/backchannel/rolesSync.ts.
pub mod Order
pub mod Catalog
pub mod Inbox
pub mod Reports
