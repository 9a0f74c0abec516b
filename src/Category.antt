-- ===== src/Category.antt =====
-- Categories: those of the system, and those that users make.
pub mod Repo
pub mod Service
pub mod Shown
mod Tests
