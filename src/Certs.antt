-- ===== src/Certs.antt =====
-- internal/certs
pub mod Sans
pub mod Normal
pub mod World
pub mod Store
pub mod Monad
pub mod Service
pub mod Keeps
pub mod Steps
pub mod Lifecycle
pub mod Custody
pub mod Revocation
pub mod Issuance
pub mod Inventory
pub mod Names
pub mod Yields
pub mod Parsed
pub mod Usages
pub mod Download
pub mod Search
pub mod Renewal
pub mod Tests
