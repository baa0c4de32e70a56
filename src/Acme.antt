-- ===== src/Acme.antt =====
-- internal/app/acme.go and snippets.go: the pages of ACME provisioners and of their keys for external
-- account binding.
pub mod Snippets
pub mod Forms
pub mod Handlers
pub mod Guarded
pub mod Shown
pub mod Settled
pub mod Merge
pub mod Recorded
pub mod Tests
