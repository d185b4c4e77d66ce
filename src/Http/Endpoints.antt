-- ===== src/Http/Endpoints.antt =====
-- The controllers, in the order in which src/app.module.ts imports their modules.
mod Accounts
mod Media
mod Incidents
mod Field
pub use Accounts.*
pub use Media.*
pub use Incidents.*
pub use Field.*
