-- ===== src/Sync.antt =====
-- Synchronisation with the mobile application's store: usecase/sync_service.go over the services of
-- transactions, goals, budgets and wallets, and repository/postgres/sync_log_repo.go.
pub mod Interfaces
pub mod Log
pub mod Payload
pub mod Changes
pub mod Service
pub mod Push
pub mod Listing
pub mod Pull
pub mod Others
pub mod Isolation
pub mod Wiring
mod Tests
