-- ===== src/Settings.antt =====
-- internal/settings: the connection to the CA and its sealed credentials.
pub mod Store
pub mod Repo
pub mod Spec
pub mod Refines
pub mod Readers
pub mod History
pub mod Tests
