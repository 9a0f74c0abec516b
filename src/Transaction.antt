-- ===== src/Transaction.antt =====
-- Transactions: usecase/transaction_service.go over repository/postgres/transaction_repo.go.
pub mod Repo
pub mod Query
pub mod Service
pub mod Listing
pub mod Atomic
pub mod Later
pub mod Reads
pub mod Pages
pub mod Moves
pub mod Balances
pub mod Posting
mod Tests
