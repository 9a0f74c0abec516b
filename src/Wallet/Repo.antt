-- ===== src/Wallet/Repo.antt =====
-- repository/postgres/wallet_repo.go with repository/sqlc/wallets.sql.go: the wallets table.
use mali.Prelude.{ℕ, Bool, false, List, ◌∷◌, ◌&&◌, String, map}
use mali.Prelude.Tests.{◌==◌, ltb}
use mali.Prelude.Lists.{is_found, find, select, update, order_by}
use mali.Prelude.Int.{ℤ}
use mali.Rat.{Rat}
use mali.Domain.{Uuid, Wallet}
use mali.Store.{WalletRow, Db}
use mali.Context.{
  Error, unique_violation, failure, wrapped, no_rows_error, Platform, M, pure, or_raise, on_error,
  gets, modify, raise_if, now, new_uuid, platform, call, ◌>>=◌, ◌>>◌,
}

-- mapSQLCWalletToDomain
abbrev pub to_domain : Platform → WalletRow → Wallet
to_domain p r = record {
  id = r.id;
  user_id = r.user_id;
  name = r.name;
  currency = r.currency;
  wallet_type = r.wallet_type;
  balance = p.render 4 r.balance;
  is_active = r.is_active;
  created_at = r.created_at;
}

abbrev pub with_id : Uuid → WalletRow → Bool
with_id id r = r.id == id

abbrev pub set_wallets : (List WalletRow → List WalletRow) → Db → Db
set_wallets f d = record d { wallets = f d.wallets }

-- `numericFromString`
unfoldable pub numeric_from_string : String → M Rat
numeric_from_string value = do p ← platform; or_raise (p.scan value) (failure "cannot scan numeric")

-- A number as a DECIMAL(18,scale) column takes it.
unfoldable pub to_column : ℕ → Rat → M ℤ
to_column scale x = do p ← platform; or_raise (p.column scale x) (failure "numeric field overflow")

-- `id UUID PRIMARY KEY`
abbrev pub duplicate_id : Error
duplicate_id = record {
  sentinel = unique_violation;
  message = "create wallet: duplicate key value violates unique constraint";
}

unfoldable pub create : Wallet → M Wallet
unfolding numeric_from_string to_column
create wallet = do
  x ← on_error (wrapped "parse wallet balance") (numeric_from_string wallet.balance)
  on_error (wrapped "create wallet") call
  balance ← on_error (wrapped "create wallet") (to_column 4 x)
  id ← new_uuid
  taken ← gets (λ d. is_found (find (with_id id) d.wallets))
  raise_if taken duplicate_id
  created_at ← now
  let row : WalletRow = record {
    id = id;
    user_id = wallet.user_id;
    name = wallet.name;
    currency = wallet.currency;
    wallet_type = wallet.wallet_type;
    balance = balance;
    is_active = wallet.is_active;
    created_at = created_at;
  }
  modify (set_wallets (λ rows. row ∷ rows))
  p ← platform
  pure (to_domain p row)

-- ORDER BY created_at DESC
abbrev newer : WalletRow → WalletRow → Bool
newer r s = ltb s.created_at r.created_at

unfoldable pub list_by_user : Uuid → M (List Wallet)
list_by_user user_id = do
  on_error (wrapped "list wallets by user") call
  rows ← gets (λ d. select (λ r. r.user_id == user_id && r.is_active) d.wallets)
  p ← platform
  pure (map (to_domain p) (order_by newer rows))

unfoldable pub find_by_id : Uuid → M Wallet
find_by_id id = do
  on_error (wrapped "find wallet by id") call
  found ← gets (λ d. find (with_id id) d.wallets)
  row ← or_raise found (wrapped "find wallet by id" no_rows_error)
  p ← platform
  pure (to_domain p row)

unfoldable pub update_balance : Uuid → String → M (Unit {0})
unfolding numeric_from_string to_column
update_balance id balance = do
  x ← on_error (wrapped "parse wallet balance") (numeric_from_string balance)
  on_error (wrapped "update wallet balance") call
  v ← on_error (wrapped "update wallet balance") (to_column 4 x)
  modify (set_wallets (update (with_id id) (λ r. record r { balance = v })))

unfoldable pub update_name : Uuid → String → M (Unit {0})
update_name id name = do
  on_error (wrapped "update wallet name") call
  modify (set_wallets (update (with_id id) (λ r. record r { name = name })))

unfoldable pub soft_delete : Uuid → M (Unit {0})
soft_delete id = do
  on_error (wrapped "soft delete wallet") call
  modify (set_wallets (update (with_id id) (λ r. record r { is_active = false })))
