-- ===== src/Analytics.antt =====
-- Reports on what was earned and spent.
pub mod Repo
pub mod Service
pub mod Worker
pub mod Top
pub mod Agreement
pub mod Trend
mod Tests
