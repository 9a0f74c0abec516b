-- ===== src/Budget.antt =====
-- Budgets.
pub mod Repo
pub mod Service
pub mod Keys
pub mod Alerts
mod Tests
