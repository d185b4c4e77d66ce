-- ===== src/Examples.antt =====
-- Concrete inputs: a database and a Redis server in lists, and the theorems at states built with
-- them.
pub mod Tables
pub mod Cameras
pub mod Server
pub mod Revocations
pub mod AlertRules
pub mod StreamRows
pub mod Accounts
pub mod Rounds
pub mod Fleet
pub mod Incidents
pub mod Uploads
pub mod Playback
pub mod Watch
pub mod Ordering
pub mod Requests
pub mod Lists
pub mod Territory
