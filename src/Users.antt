-- ===== src/Users.antt =====
-- internal/users
pub mod Role
pub mod Table
pub mod Repo
pub mod Invariant
pub mod Insertion
pub mod Transaction
pub mod Safety
pub mod Atomic
pub mod Setup
pub mod Login
pub mod Guard
pub mod Ceiling
mod Tests
