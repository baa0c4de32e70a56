-- ===== src/Ca.antt =====
-- internal/ca: the client of the CA.
pub mod Fingerprint
pub mod Canonical
pub mod Net
pub mod Pinned
pub mod Spec
pub mod Token
pub mod Provisioners
pub mod Eab
pub mod Sign
pub mod Revoke
pub mod Steps
pub mod Keeps
pub mod Vouched
pub mod Ready
pub mod Connected
pub mod Trusted
pub mod Paging
pub mod Agreement
pub mod Payload
pub mod Keyed
pub mod Signed
pub mod Tests
