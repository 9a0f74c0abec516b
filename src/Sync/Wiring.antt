-- ===== src/Sync/Wiring.antt =====
-- How cmd/api/main.go puts the services together for SyncService.
use mali.Prelude.{◌≡◌, refl, true, false, some, List, [], ◌∷◌, String}
use mali.Prelude.Text.{to_upper, trim_space}
use mali.Context.{Result, ok, err}
use mali.Transaction.Service.{
  TransactionService, new_transaction_service, create_transaction, delete_transaction,
}
use mali.Goal.Service.{GoalService, new_goal_service, create_goal, update_goal, delete_goal}
use mali.Goal.Contribute.{contribute}
use mali.Budget.Service.{BudgetService, new_budget_service, upsert_budget}
use mali.Wallet.{WalletService, new_wallet_service, create_wallet, update_name, delete}
use mali.Sync.Interfaces.{
  TransactionOps, GoalOps, BudgetOps, WalletOps, SyncLogOps, SyncService, new_sync_service,
}
use mali.Sync.Log

abbrev pub supported_wallet_currencies : List String
supported_wallet_currencies = "USD" ∷ "EUR" ∷ "GBP" ∷ "KES" ∷ "UGX" ∷ "TZS" ∷ "NGN" ∷ "ZAR" ∷ []

abbrev pub transaction_ops : TransactionService → TransactionOps
transaction_ops s = record {
  create_transaction = create_transaction s;
  delete_transaction = delete_transaction s;
}

abbrev pub goal_ops : GoalService → GoalOps
goal_ops s = record {
  create_goal = create_goal s;
  update_goal = update_goal s;
  contribute = contribute s;
  delete_goal = delete_goal s;
}

abbrev pub budget_ops : BudgetService → BudgetOps
budget_ops s = record { upsert_budget = upsert_budget s }

abbrev pub wallet_ops : WalletService → WalletOps
wallet_ops s = record {
  create_wallet = create_wallet s;
  update_name = update_name s;
  delete = delete s;
}

abbrev pub sync_log_ops : SyncLogOps
sync_log_ops = record { list_by_user_since = Log.list_by_user_since }

-- The services over the repositories that stand on the database.
abbrev pub wired : TransactionService → GoalService → BudgetService → WalletService → SyncService
wired t g b v = record {
  transaction_service = transaction_ops t;
  goal_service = goal_ops g;
  budget_service = budget_ops b;
  wallet_service = wallet_ops v;
  sync_log_repository = sync_log_ops;
}

abbrev and_then : {A B : Type 0} → Result A → (A → Result B) → Result B
and_then (ok a) k = k a
and_then (err e) k = err e

-- The part of `main` that builds SyncService; an error ends the program.
unfoldable pub build : Result SyncService
unfolding new_wallet_service new_transaction_service new_goal_service new_budget_service
    new_sync_service
build = and_then (new_wallet_service true supported_wallet_currencies) λ v.
    and_then (new_transaction_service true true) λ t. and_then (new_goal_service true) λ g.
      and_then (new_budget_service true) λ b.
        new_sync_service (some (transaction_ops t)) (some (goal_ops g)) (some (budget_ops b))
          (some (wallet_ops v)) (some sync_log_ops)

abbrev pub main_service : SyncService
main_service =
    wired (record { has_transactions = true; has_wallets = true })
      (record { has_repository = true; has_emitter = false })
      (record { has_repository = true; has_emitter = false })
      (record { has_repository = true; supported_currencies = supported_wallet_currencies })

starts : build ≡ ok main_service
unfolding build to_upper trim_space
starts = refl
