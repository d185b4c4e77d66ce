-- ===== src/Evidences.antt =====
-- src/modules/evidences.
pub mod Records
pub mod Storage
pub mod State
pub mod Service
pub mod Captures
pub mod Integrity
pub mod Downloads
pub mod Listing
pub mod Archive
