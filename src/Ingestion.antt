-- ===== src/Ingestion.antt =====
-- src/modules/ingestion.
pub mod Config
pub mod Args
pub mod Service
pub mod Events
pub mod WellFormed
pub mod Keeps
pub mod Runs
pub mod Retries
pub mod Lifecycle
pub mod Orphans
pub mod Shown
