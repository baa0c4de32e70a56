-- ===== src/App.antt =====
-- internal/app: the HTTP handlers.
pub mod State
pub mod Gate
pub mod Accounts
pub mod Server
pub mod Reach
pub mod Runs
pub mod Privilege
pub mod Sessions
pub mod Inventory
pub mod AuditPage
pub mod Tests
