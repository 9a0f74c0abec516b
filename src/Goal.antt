-- ===== src/Goal.antt =====
-- Savings goals: usecase/goal_service.go over repository/postgres/goal_repo.go.
pub mod Months
pub mod Repo
pub mod Milestones
pub mod Service
pub mod Contribute
pub mod Silence
pub mod Monthly
mod Tests
