-- ===== src/Sync/Interfaces.antt =====
-- What SyncService of usecase/sync_service.go asks of other components, its constructor, and what it
-- exchanges with its callers.
use mali.Prelude.{ℕ, Bool, Option, none, some, List, String}
use mali.Time.{Time}
use mali.Domain.{Uuid, Transaction, Goal, Budget, Wallet}
use mali.Json.{Json, Payload}
use mali.Context.{Result, ok, err, invalid, M}
use mali.Transaction.Service.{LogTransactionInput, DeleteTransactionInput}
use mali.Goal.Service.{CreateGoalInput, UpdateGoalInput, ContributeGoalInput}
use mali.Budget.Service.{UpsertBudgetInput}
use mali.Wallet.{CreateWalletInput, UpdateWalletNameInput, DeleteWalletInput}

pub record SyncChange : Type 0 where
  pub sync_id : String
  pub entity : String
  pub operation : String
  pub payload : Payload

pub record SyncPushInput : Type 0 where
  pub user_id : Uuid
  pub changes : List SyncChange

pub record SyncConflict : Type 0 where
  pub sync_id : String
  pub entity : String
  pub operation : String
  pub reason : String

pub record SyncPushResult : Type 0 where
  pub accepted_ids : List String
  pub conflicts : List SyncConflict

pub record SyncPullCursor : Type 0 where
  pub synced_at : Time
  pub id : Uuid

-- A limit below zero is written as zero, which the source treats alike.
pub record SyncPullInput : Type 0 where
  pub user_id : Uuid
  pub since : Time
  pub limit : ℕ
  pub cursor : Option SyncPullCursor

pub record SyncLogListInput : Type 0 where
  pub user_id : Uuid
  pub since : Time
  pub limit : ℕ
  pub cursor : Option SyncPullCursor

pub record SyncLogEntry : Type 0 where
  pub id : Uuid
  pub entity_type : String
  pub entity_id : Uuid
  pub operation : String
  pub payload : Json
  pub synced_at : Time

pub record SyncDelta : Type 0 where
  pub id : Uuid
  pub entity_type : String
  pub entity_id : Uuid
  pub operation : String
  pub payload : Json
  pub synced_at : Time

pub record SyncPullResult : Type 0 where
  pub changes : List SyncDelta
  pub next_cursor : Option SyncPullCursor

-- syncTransactionService
pub record TransactionOps : Type 0 where
  pub create_transaction : LogTransactionInput → M (Transaction × Bool)
  pub delete_transaction : DeleteTransactionInput → M (Unit {0})

-- syncGoalService
pub record GoalOps : Type 0 where
  pub create_goal : CreateGoalInput → M Goal
  pub update_goal : UpdateGoalInput → M (Unit {0})
  pub contribute : ContributeGoalInput → M Goal
  pub delete_goal : Uuid → Uuid → M (Unit {0})

-- syncBudgetService
pub record BudgetOps : Type 0 where
  pub upsert_budget : UpsertBudgetInput → M Budget

-- syncWalletService
pub record WalletOps : Type 0 where
  pub create_wallet : CreateWalletInput → M Wallet
  pub update_name : UpdateWalletNameInput → M (Unit {0})
  pub delete : DeleteWalletInput → M (Unit {0})

-- syncLogRepository
pub record SyncLogOps : Type 0 where
  pub list_by_user_since : SyncLogListInput → M (List SyncLogEntry)

pub record SyncService : Type 0 where
  pub transaction_service : TransactionOps
  pub goal_service : GoalOps
  pub budget_service : BudgetOps
  pub wallet_service : WalletOps
  pub sync_log_repository : SyncLogOps

-- `if x == nil { return nil, … }`
abbrev required : {A : Type 0} → String → Option A → (A → Result SyncService) → Result SyncService
required name none k = err (invalid name)
required name (some a) k = k a

unfoldable pub new_sync_service :
    Option TransactionOps
    → Option GoalOps
    → Option BudgetOps
    → Option WalletOps
    → Option SyncLogOps
    → Result SyncService
new_sync_service transactions goals budgets wallets sync_log =
    required "transaction service is required" transactions λ t.
      required "goal service is required" goals λ g.
        required "budget service is required" budgets λ b.
          required "wallet service is required" wallets λ v.
            required "sync log repository is required" sync_log λ l. ok (record {
              transaction_service = t;
              goal_service = g;
              budget_service = b;
              wallet_service = v;
              sync_log_repository = l;
            })
