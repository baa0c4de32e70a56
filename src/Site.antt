-- ===== src/Site.antt =====
-- internal/app/server.go: the whole program behind its routes.
pub mod State
pub mod Server
pub mod Access
pub mod Discreet
pub mod Runs
pub mod Guarded
mod Tests
