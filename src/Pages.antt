-- ===== src/Pages.antt =====
-- internal/app/certs.go and revoke.go: the pages that issue, sign, revoke and renew certificates.
pub mod Fields
pub mod Names
pub mod State
pub mod Handlers
pub mod Inventory
pub mod Secrets
pub mod Reads
pub mod Keeps
pub mod Confirmed
pub mod Tests
