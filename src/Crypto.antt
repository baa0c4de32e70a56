-- ===== src/Crypto.antt =====
-- internal/crypto/crypto.go: the box that seals secrets, and the file of its key, which processes that
-- start together create without a lock.
pub mod Box
pub mod Files
pub mod Key
pub mod Rely
mod Calls
mod Rules
mod Publish
mod Load
pub mod Agreement
pub mod Turns
pub mod Sealed
mod Tests
