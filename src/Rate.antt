-- ===== src/Rate.antt =====
-- Exchange rates: what users set by hand and what the worker fetches.
pub mod Repo
pub mod Service
pub mod Worker
pub mod Latest
pub mod Manual
pub mod Recent
pub mod Keys
pub mod Fetched
pub mod Task
mod Tests
