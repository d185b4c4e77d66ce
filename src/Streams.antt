-- ===== src/Streams.antt =====
-- src/modules/streams.
pub mod Playback
pub mod Stream
pub mod Requests
pub mod Rows
pub mod Service
pub mod Lifecycle
pub mod Listing
