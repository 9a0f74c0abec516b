-- ===== src/Auth.antt =====
-- Accounts and tokens.
pub mod Repo
pub mod Service
pub mod Spent
pub mod Rotation
pub mod Users
pub mod Accounts
pub mod Enrolment
pub mod Entry
pub mod Return
mod Admission
mod Tests
