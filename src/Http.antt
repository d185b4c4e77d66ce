-- ===== src/Http.antt =====
-- The HTTP layer: src/app.module.ts, the controllers and src/common.
pub mod Request
pub mod Route
pub mod Endpoints
pub mod Router
pub mod Dispatch
pub mod Guarding
pub mod Access
pub mod OwnAccount
pub mod Reachable
pub mod Interception
