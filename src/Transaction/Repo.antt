-- ===== src/Transaction/Repo.antt =====
-- repository/postgres/transaction_repo.go: the transactions table, and the balances that a new
-- transaction moves.
use mali.Prelude.{
  ◌^◌, Bool, true, false, Option, none, some, List, ◌∷◌, ◌&&◌, ◌||◌, String, ◌^^◌, str_eq,
}
use mali.Prelude.Tests.{◌==◌, if◌then◌else◌, not}
use mali.Prelude.Lists.{is_found, find, update, exists}
use mali.Prelude.Int.{ℤ}
use mali.Rat.{Rat, add, mul, negate}
use mali.Rat.Text.{set_string, float_string}
use mali.Time.{Time}
use mali.Domain.{Uuid, Transaction, CreateTransactionInput}
use mali.Store.{WalletRow, TransactionRow, Db}
use mali.Context.{
  Error, Result, ok, err, unique_violation, failure, wrapped, no_rows_error, Platform, M, pure,
  lift, or_raise, on_error, gets, modify, raise_if, now, new_uuid, platform, call, transaction,
  ◌>>=◌, ◌>>◌,
}
use mali.Wallet.Repo.{with_id as wallet_with_id, set_wallets, to_column}

-- scanTransaction
abbrev pub to_domain : Platform → TransactionRow → Transaction
to_domain p r = record {
  id = r.id;
  user_id = r.user_id;
  wallet_id = r.wallet_id;
  category_id = r.category_id;
  tx_type = r.tx_type;
  amount = p.render 4 r.amount;
  currency = r.currency;
  notes = r.notes;
  source = r.source;
  transacted_at = r.transacted_at;
  created_at = r.created_at;
  is_deleted = r.is_deleted;
  sync_id = r.sync_id;
  transfer_to_wallet_id = r.transfer_to_wallet_id;
  exchange_rate = elim r.exchange_rate [ none ↦ none | some x ↦ some (p.render 8 x) ];
}

abbrev pub with_id : Uuid → TransactionRow → Bool
with_id id r = r.id == id

abbrev pub is_some_of : Option Uuid → Uuid → Bool
is_some_of none u = false
is_some_of (some v) u = v == u

abbrev pub with_sync_id : Uuid → TransactionRow → Bool
with_sync_id id r = is_some_of r.sync_id id

abbrev pub set_transactions : (List TransactionRow → List TransactionRow) → Db → Db
set_transactions f d = record d { transactions = f d.transactions }

unfoldable pub parse_decimal : String → Result Rat
parse_decimal value = elim (set_string value) [
  | none ↦ err (failure "invalid decimal value")
  | some x ↦ ok x
]

unfoldable pub rat_to_decimal_string : Rat → String
rat_to_decimal_string x = float_string 12 x

abbrev pub lockable : Uuid → Uuid → WalletRow → Bool
lockable user_id wallet_id r = r.id == wallet_id && r.user_id == user_id && r.is_active

-- The lock itself holds off other transactions; this one only needs the row to be there.
unfoldable pub lock_wallet_for_update : Uuid → Uuid → M (Unit {0})
lock_wallet_for_update user_id wallet_id = do
  on_error (wrapped "lock wallet") call
  locked ← gets (λ d. find (lockable user_id wallet_id) d.wallets)
  or_raise locked (failure "wallet not found")
  pure tt

-- A DECIMAL(18,4) value as a number.
abbrev pub of_column : ℤ → Rat
of_column v = record { num = v; den = 10 ^ 4 }

-- `SET balance = balance + $2::numeric`; the id is the primary key, so at most one row has it.
unfoldable pub apply_wallet_balance_delta : Uuid → String → M (Unit {0})
unfolding to_column
apply_wallet_balance_delta wallet_id delta = do
  on_error (wrapped "apply wallet balance delta") call
  p ← platform
  x ←
      or_raise (p.cast delta)
        (failure "apply wallet balance delta: invalid input syntax for numeric")
  found ← gets (λ d. find (wallet_with_id wallet_id) d.wallets)
  row ← or_raise found (failure "wallet not found")
  v ← on_error (wrapped "apply wallet balance delta") (to_column 4 (add (of_column row.balance) x))
  modify (set_wallets (update (wallet_with_id wallet_id) (λ r. record r { balance = v })))

-- `id UUID PRIMARY KEY`, `sync_id UUID UNIQUE`
abbrev duplicate_key : Error
duplicate_key = record {
  sentinel = unique_violation;
  message = "scan transaction: duplicate key value violates unique constraint";
}

abbrev pub sync_id_taken : Option Uuid → List TransactionRow → Bool
sync_id_taken none rows = false
sync_id_taken (some id) rows = exists (with_sync_id id) rows

unfoldable pub store_rate : Option String → M (Option ℤ)
unfolding to_column
store_rate none = pure none
store_rate (some rate) = do
  p ← platform
  x ← or_raise (p.cast rate) (failure "scan transaction: invalid input syntax for numeric")
  v ← on_error (wrapped "scan transaction") (to_column 8 x)
  pure (some v)

-- The inserted row, with the values that the server fills in.
abbrev pub new_row : CreateTransactionInput → ℤ → Option ℤ → Uuid → Time → TransactionRow
new_row input amount exchange_rate id created_at = record {
  id = id;
  user_id = input.user_id;
  wallet_id = input.wallet_id;
  category_id = input.category_id;
  tx_type = input.tx_type;
  amount = amount;
  currency = input.currency;
  notes = input.notes;
  source = input.source;
  transacted_at = input.transacted_at;
  created_at = created_at;
  is_deleted = false;
  sync_id = input.sync_id;
  transfer_to_wallet_id = input.transfer_to_wallet_id;
  exchange_rate = exchange_rate;
}

-- The row itself, once its values are read.
unfoldable pub insert_row : Platform → CreateTransactionInput → ℤ → Option ℤ → M Transaction
insert_row p input amount exchange_rate = do
  id ← new_uuid
  repeated ← gets (λ d. is_found (find (with_id id) d.transactions))
  raise_if repeated duplicate_key
  created_at ← now
  let row = new_row input amount exchange_rate id created_at
  modify (set_transactions (λ rows. row ∷ rows))
  pure (to_domain p row)

unfoldable pub insert_transaction : CreateTransactionInput → M Transaction
unfolding to_column exists insert_row
insert_transaction input = do
  on_error (wrapped "scan transaction") call
  p ← platform
  x ← or_raise (p.cast input.amount) (failure "scan transaction: invalid input syntax for numeric")
  amount ← on_error (wrapped "scan transaction") (to_column 4 x)
  exchange_rate ← store_rate input.exchange_rate
  taken ← gets (λ d. sync_id_taken input.sync_id d.transactions)
  raise_if taken duplicate_key
  insert_row p input amount exchange_rate

unfoldable pub source_delta : String → Rat → Result Rat
source_delta tx_type amount =
    if str_eq tx_type "expense" || str_eq tx_type "transfer"
    then ok (negate amount)
    else if str_eq tx_type "income"
    then ok amount
    else err (failure ("unsupported transaction type: " ^^ tx_type))

-- The second half of a transfer: the amount at the exchange rate, into the other wallet.
unfoldable pub credit : CreateTransactionInput → Rat → M (Unit {0})
unfolding lock_wallet_for_update apply_wallet_balance_delta parse_decimal rat_to_decimal_string
credit input amount = do
  to_wallet ← or_raise input.transfer_to_wallet_id (failure "transfer_to_wallet_id is required")
  exchange_rate ← or_raise input.exchange_rate (failure "exchange_rate is required")
  lock_wallet_for_update input.user_id to_wallet
  rate ← on_error (wrapped "parse exchange rate") (lift (parse_decimal exchange_rate))
  apply_wallet_balance_delta to_wallet (rat_to_decimal_string (mul amount rate))

unfoldable pub move_balances : CreateTransactionInput → M (Unit {0})
unfolding lock_wallet_for_update apply_wallet_balance_delta parse_decimal rat_to_decimal_string
    source_delta credit
move_balances input = do
  amount ← on_error (wrapped "parse transaction amount") (lift (parse_decimal input.amount))
  lock_wallet_for_update input.user_id input.wallet_id
  delta ← lift (source_delta input.tx_type amount)
  apply_wallet_balance_delta input.wallet_id (rat_to_decimal_string delta)
  if str_eq input.tx_type "transfer" then credit input amount else pure tt

-- What is done between the begin and the commit.
unfoldable pub post : CreateTransactionInput → M Transaction
unfolding move_balances insert_transaction
post input = do move_balances input; insert_transaction input

unfoldable pub create_and_apply : CreateTransactionInput → M Transaction
create_and_apply input = transaction (post input)

unfoldable pub find_by_id : Uuid → M Transaction
find_by_id id = do
  on_error (wrapped "find transaction by id: scan transaction") call
  found ← gets (λ d. find (with_id id) d.transactions)
  row ← or_raise found no_rows_error
  p ← platform
  pure (to_domain p row)

unfoldable pub find_by_sync_id : Uuid → M Transaction
find_by_sync_id sync_id = do
  on_error (wrapped "find transaction by sync_id: scan transaction") call
  found ← gets (λ d. find (with_sync_id sync_id) d.transactions)
  row ← or_raise found no_rows_error
  p ← platform
  pure (to_domain p row)

abbrev pub deletable : Uuid → Uuid → TransactionRow → Bool
deletable user_id id r = r.id == id && r.user_id == user_id && not r.is_deleted

unfoldable pub soft_delete : Uuid → Uuid → M (Unit {0})
unfolding exists
soft_delete user_id id = do
  on_error (wrapped "soft delete transaction") call
  affected ← gets (λ d. exists (deletable user_id id) d.transactions)
  modify (set_transactions (update (deletable user_id id) (λ r. record r { is_deleted = true })))
  raise_if (not affected) no_rows_error
