-- ===== src/Desk.antt =====
-- internal/app/provisioners.go: the page of the provisioners, between the settings and the CA.
pub mod State
pub mod Provisioners
pub mod Panel
pub mod Asked
pub mod Listed
pub mod Settled
pub mod Requests
pub mod Keeps
pub mod Guarded
pub mod Deleted
pub mod Tests
