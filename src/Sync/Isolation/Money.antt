-- ===== src/Sync/Isolation/Money.antt =====
-- The operations on wallets and transactions that a batch asks for leave alone what is not the user's.
use mali.Prelude.{ℕ, ◌≡◌, refl, subst, true, Option, none, some, arith, String}
use mali.Domain.{Uuid, CreateTransactionInput}
use mali.Rat.{Rat}
use mali.Context.{M}
use mali.Store.{Db}
use mali.Prelude.Lists.{update}
use mali.Transaction.Repo.{set_transactions}
use mali.Context.Views.{Keeps, view_rules, Keeps-IsReadOnly}
use mali.Wallet.{
  WalletService, CreateWalletInput, UpdateWalletNameInput, DeleteWalletInput, create_wallet,
  update_name, delete,
}
use mali.Wallet.Repo as WalletRepo
use mali.Wallet.Repo.{to_column, numeric_from_string}
use mali.Transaction.Repo as TransactionRepo
use mali.Transaction.Atomic.{
  find_earlier-IsReadOnly, transfer_part-IsReadOnly, get_owned_wallet-IsReadOnly,
}
use mali.Transaction.Service.{
  TransactionService, LogTransactionInput, DeleteTransactionInput, create_transaction,
  log_transaction, log_new, or_else, delete_transaction,
}
use mali.Sync.Others.{others, others-wallets, others-new_transaction, others-update_transactions}

pub to_column-Keeps : (u : Uuid) (n : ℕ) (x : Rat) → Keeps (others u) (to_column n x)
unfolding to_column
to_column-Keeps u n x = search view_rules

pub numeric_from_string-Keeps :
    (u : Uuid) (text : String) → Keeps (others u) (numeric_from_string text)
unfolding numeric_from_string
numeric_from_string-Keeps u text = search view_rules

pub create_wallet-Keeps :
    (s : WalletService) (i : CreateWalletInput) → Keeps (others i.user_id) (create_wallet s i)
unfolding create_wallet WalletRepo.create
create_wallet-Keeps s i =
    search (view_rules, to_column-Keeps, numeric_from_string-Keeps, others-wallets) depth 24

pub update_name-Keeps :
    (s : WalletService) (i : UpdateWalletNameInput) → Keeps (others i.user_id) (update_name s i)
unfolding update_name WalletRepo.update_name
update_name-Keeps s i =
    search (view_rules, Keeps-IsReadOnly, get_owned_wallet-IsReadOnly, others-wallets) depth 24

pub delete-Keeps :
    (s : WalletService) (i : DeleteWalletInput) → Keeps (others i.user_id) (delete s i)
unfolding delete WalletRepo.soft_delete
delete-Keeps s i =
    search (view_rules, Keeps-IsReadOnly, get_owned_wallet-IsReadOnly, others-wallets) depth 24

-- Transactions.
lock-Keeps : (u v i : Uuid) → Keeps (others u) (TransactionRepo.lock_wallet_for_update v i)
unfolding TransactionRepo.lock_wallet_for_update
lock-Keeps u v i = search view_rules depth 12

apply_delta-Keeps :
    (u i : Uuid) (text : String)
    → Keeps (others u) (TransactionRepo.apply_wallet_balance_delta i text)
unfolding TransactionRepo.apply_wallet_balance_delta
apply_delta-Keeps u i text = search (view_rules, to_column-Keeps, others-wallets) depth 16

credit-Keeps :
    (u : Uuid) (i : CreateTransactionInput) (x : Rat)
    → Keeps (others u) (TransactionRepo.credit i x)
unfolding TransactionRepo.credit
credit-Keeps u i x = search (view_rules, lock-Keeps, apply_delta-Keeps) depth 16

move_balances-Keeps :
    (u : Uuid) (i : CreateTransactionInput) → Keeps (others u) (TransactionRepo.move_balances i)
unfolding TransactionRepo.move_balances
move_balances-Keeps u i = search (view_rules, lock-Keeps, apply_delta-Keeps, credit-Keeps) depth 16

store_rate-Keeps : (u : Uuid) (o : Option String) → Keeps (others u) (TransactionRepo.store_rate o)
unfolding TransactionRepo.store_rate
store_rate-Keeps u none = search view_rules
store_rate-Keeps u (some rate) = search (view_rules, to_column-Keeps) depth 12

insert_transaction-Keeps :
    (i : CreateTransactionInput) → Keeps (others i.user_id) (TransactionRepo.insert_transaction i)
unfolding TransactionRepo.insert_transaction
insert_transaction-Keeps i =
    search (view_rules, to_column-Keeps, store_rate-Keeps, others-new_transaction) depth 20

create_and_apply-Keeps :
    (u : Uuid) (i : CreateTransactionInput)
    → i.user_id ≡ u
    → Keeps (others u) (TransactionRepo.create_and_apply i)
unfolding TransactionRepo.create_and_apply TransactionRepo.post
create_and_apply-Keeps u i h =
    subst (λ v. Keeps (others v) (TransactionRepo.create_and_apply i)) h
      (search (view_rules, move_balances-Keeps, insert_transaction-Keeps))

log_new-Keeps : (i : LogTransactionInput) → Keeps (others i.user_id) (log_new i)
unfolding log_new
log_new-Keeps i =
    search
      (
        view_rules, Keeps-IsReadOnly, get_owned_wallet-IsReadOnly, transfer_part-IsReadOnly,
        create_and_apply-Keeps,
      )
      depth 24

or_else-Keeps :
    {A : Type 0} (u : Uuid) (o : Option A) (m : M A)
    → Keeps (others u) m
    → Keeps (others u) (or_else o m)
unfolding or_else
or_else-Keeps u none m h = h
or_else-Keeps u (some a) m h = search view_rules

log_transaction-Keeps :
    (s : TransactionService) (i : LogTransactionInput)
    → Keeps (others i.user_id) (log_transaction s i)
unfolding log_transaction
log_transaction-Keeps s i =
    search (view_rules, Keeps-IsReadOnly, find_earlier-IsReadOnly, or_else-Keeps, log_new-Keeps)
      depth 12

pub create_transaction-Keeps :
    (s : TransactionService) (i : LogTransactionInput)
    → Keeps (others i.user_id) (create_transaction s i)
unfolding create_transaction
create_transaction-Keeps s i =
    search
      (view_rules, Keeps-IsReadOnly, find_earlier-IsReadOnly, or_else-Keeps, log_transaction-Keeps)
      depth 12

soft_delete-Keeps : (u i : Uuid) → Keeps (others u) (TransactionRepo.soft_delete u i)
unfolding TransactionRepo.soft_delete
soft_delete-Keeps u i = search (view_rules, ours) depth 12
  where
    ours :
        (d : Db)
        → others u (
            set_transactions
              (update (TransactionRepo.deletable u i) (λ r. record r { is_deleted = true }))
              d)
          ≡ others u d
    ours d = others-update_transactions u d _ _ (λ r h. ground arith) (λ r. refl)

pub delete_transaction-Keeps :
    (s : TransactionService) (i : DeleteTransactionInput)
    → Keeps (others i.user_id) (delete_transaction s i)
unfolding delete_transaction
delete_transaction-Keeps s i = search (view_rules, soft_delete-Keeps) depth 12
