-- ===== src/Audit.antt =====
-- internal/audit
pub mod Log
pub mod History
pub mod Paging
pub mod Listing
mod Tests
