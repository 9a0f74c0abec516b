-- ===== src/Transaction/Service.antt =====
-- usecase/transaction_service.go. `has_transactions` and `has_wallets` say that the repositories are not
-- nil; a limit below zero is written as zero, which the source treats alike.
use mali.Prelude.{ℕ, Bool, true, false, Option, none, some, List, ◌&&◌, ◌||◌, String, str_eq}
use mali.Prelude.Tests.{◌==◌, if◌then◌else◌, not}
use mali.Prelude.Text.{trim_space, to_lower, is_empty}
use mali.Rat.{is_positive}
use mali.Time.{Time, is_zero}
use mali.Domain.{Uuid, is_nil, Transaction, TransactionCursor}
use mali.Amount.{normalize_currency_code, normalize_amount, parse_amount}
use mali.Context.{
  Error, Result, ok, err, failure, invalid, wrapped, is_not_found, M, pure, raise, lift, or_raise,
  attempt, on_error, raise_if, ◌>>=◌, ◌>>◌,
}
use mali.Wallet.{get_owned_wallet}
use mali.Transaction.Repo

pub record LogTransactionInput : Type 0 where
  pub user_id : Uuid
  pub wallet_id : Uuid
  pub category_id : Option Uuid
  pub tx_type : String
  pub amount : String
  pub currency : String
  pub notes : String
  pub source : String
  pub transacted_at : Time
  pub sync_id : Option Uuid
  pub transfer_to_wallet_id : Option Uuid
  pub exchange_rate : String

pub record ListTransactionsInput : Type 0 where
  pub user_id : Uuid
  pub wallet_id : Option Uuid
  pub category_id : Option Uuid
  pub date_from : Option Time
  pub date_to : Option Time
  pub tx_type : String
  pub limit : ℕ
  pub sort : String
  pub cursor : Option TransactionCursor

pub record ListTransactionsOutput : Type 0 where
  pub transactions : List Transaction
  pub next_cursor : Option TransactionCursor

pub record GetTransactionInput : Type 0 where
  pub user_id : Uuid
  pub transaction_id : Uuid

pub record DeleteTransactionInput : Type 0 where
  pub user_id : Uuid
  pub transaction_id : Uuid

pub record TransactionService : Type 0 where
  pub has_transactions : Bool
  pub has_wallets : Bool

unfoldable pub new_transaction_service : Bool → Bool → Result TransactionService
new_transaction_service has_transactions has_wallets =
    if not has_transactions
    then err (invalid "transaction repository is required")
    else if not has_wallets
    then err (invalid "wallet repository is required")
    else ok (record { has_transactions = true; has_wallets = true })

abbrev pub not_configured : Error
not_configured = failure "transaction service dependencies are not configured"

-- `input.SyncID != nil && *input.SyncID != uuid.Nil`
abbrev pub given_id : Option Uuid → Option Uuid
given_id none = none
given_id (some id) = if is_nil id then none else some id

abbrev existing_pair : Option Transaction → Option (Transaction × Bool)
existing_pair none = none
existing_pair (some t) = some (t, true)

-- The record that is there, or what makes one.
unfoldable pub or_else : {A : Type 0} → Option A → M A → M A
or_else none make = make
or_else (some a) make = pure a

-- What the lookup of a sync id says: the user's record of an earlier call, nothing, or an error.
abbrev pub earlier_record : Uuid → Result Transaction → M (Option Transaction)
earlier_record user_id (ok existing) =
    if existing.user_id == user_id
    then pure (some existing)
    else raise (invalid "sync_id already exists")
earlier_record user_id (err e) =
    if is_not_found e then pure none else raise (wrapped "find transaction by sync_id" e)

unfoldable pub find_earlier : Uuid → Option Uuid → M (Option Transaction)
unfolding ◌>>=◌
find_earlier user_id none = pure none
find_earlier user_id (some id) = do
  found ← attempt (Repo.find_by_sync_id id)
  earlier_record user_id found

abbrev pub is_type : String → Bool
is_type t = str_eq t "expense" || str_eq t "income" || str_eq t "transfer"

abbrev pub non_blank : String → Option String
non_blank text = if is_empty text then none else some text

-- The other wallet of a transfer and the exchange rate; both are dropped for the other types.
unfoldable pub transfer_part : LogTransactionInput → String → M (Option Uuid × Option String)
unfolding normalize_amount parse_amount
transfer_part input tx_type = if not (str_eq tx_type "transfer") then pure (none, none) else do
  to_wallet ←
      or_raise (given_id input.transfer_to_wallet_id)
        (invalid "transfer_to_wallet_id is required for transfer")
  raise_if (to_wallet == input.wallet_id) (invalid "transfer wallets must be different")
  get_owned_wallet input.user_id to_wallet
  let rate = normalize_amount input.exchange_rate
  value ← on_error (λ _. invalid "invalid exchange_rate") (lift (parse_amount rate))
  raise_if (not (is_positive value)) (invalid "exchange_rate must be greater than 0")
  pure (input.transfer_to_wallet_id, some rate)

-- LogTransaction, once no earlier record was found.
unfoldable pub log_new : LogTransactionInput → M Transaction
unfolding normalize_currency_code normalize_amount parse_amount transfer_part
log_new input = do
  raise_if (is_nil input.wallet_id) (invalid "wallet_id is required")
  let tx_type = to_lower (trim_space input.tx_type)
  raise_if (not (is_type tx_type)) (invalid "type must be income, expense, or transfer")
  let amount = normalize_amount input.amount
  value ← on_error (λ _. invalid "invalid transaction amount") (lift (parse_amount amount))
  raise_if (not (is_positive value)) (invalid "amount must be greater than 0")
  let currency = normalize_currency_code input.currency
  raise_if (is_empty currency) (invalid "currency is required")
  let source = trim_space input.source
  raise_if (is_empty source) (invalid "source is required")
  raise_if (is_zero input.transacted_at) (invalid "transacted_at is required")
  get_owned_wallet input.user_id input.wallet_id
  (to_wallet, rate) ← transfer_part input tx_type
  on_error (wrapped "log transaction") (
      Repo.create_and_apply (record {
        user_id = input.user_id;
        wallet_id = input.wallet_id;
        category_id = input.category_id;
        tx_type = tx_type;
        amount = amount;
        currency = currency;
        notes = non_blank (trim_space input.notes);
        source = source;
        transacted_at = input.transacted_at;
        sync_id = input.sync_id;
        transfer_to_wallet_id = to_wallet;
        exchange_rate = rate;
      }))

module _ (s : TransactionService) where
  unfoldable pub log_transaction : LogTransactionInput → M Transaction
  unfolding find_earlier or_else
  log_transaction input = do
    raise_if (not (s.has_transactions && s.has_wallets)) not_configured
    raise_if (is_nil input.user_id) (invalid "user_id is required")
    earlier ← find_earlier input.user_id (given_id input.sync_id)
    or_else earlier (log_new input)

  -- The transaction, and whether it was there before.
  unfoldable pub create_transaction : LogTransactionInput → M (Transaction × Bool)
  unfolding find_earlier or_else
  create_transaction input = do
    earlier ← find_earlier input.user_id (given_id input.sync_id)
    or_else (existing_pair earlier) (do created ← log_transaction input; pure (created, false))

  unfoldable pub get_transaction : GetTransactionInput → M Transaction
  get_transaction input = do
    raise_if (not s.has_transactions) not_configured
    raise_if (is_nil input.user_id) (invalid "user_id is required")
    raise_if (is_nil input.transaction_id) (invalid "transaction_id is required")
    tx ←
        on_error
          (λ e.
            if is_not_found e
            then invalid "transaction not found"
            else wrapped "find transaction by id" e)
          (Repo.find_by_id input.transaction_id)
    raise_if (not (tx.user_id == input.user_id) || tx.is_deleted) (invalid "transaction not found")
    pure tx

  unfoldable pub delete_transaction : DeleteTransactionInput → M (Unit {0})
  delete_transaction input = do
    raise_if (not s.has_transactions) not_configured
    raise_if (is_nil input.user_id) (invalid "user_id is required")
    raise_if (is_nil input.transaction_id) (invalid "transaction_id is required")
    on_error
        (λ e.
          if is_not_found e
          then invalid "transaction not found"
          else wrapped "delete transaction" e)
        (Repo.soft_delete input.user_id input.transaction_id)
