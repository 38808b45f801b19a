-- ===== src/Meta.antt =====
-- The meta server, src/meta.
pub mod Data
pub mod Snapshot
pub mod Refresh
pub mod Migrate
pub mod Election
pub mod Store
pub mod Update
pub mod Commands
