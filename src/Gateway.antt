-- ===== src/Gateway.antt =====
-- src/modules/gateway.
pub mod Emissions
pub mod Polling
pub mod Announcements
pub mod Clients
