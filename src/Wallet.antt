-- ===== src/Wallet.antt =====
-- Wallets: usecase/wallet_service.go over repository/postgres/wallet_repo.go and its queries.
pub mod Repo
pub mod Request
pub mod Isolation
pub mod Keys
pub mod Removal
mod Tests
use mali.Prelude.{Bool, true, false, Option, none, some, List, [], ◌∷◌, ◌||◌, String, str_eq}
use mali.Prelude.Tests.{if◌then◌else◌, not, ◌==◌}
use mali.Prelude.Lists.{exists}
use mali.Prelude.Text.{trim_space, is_empty}
use mali.Prelude.Int.{pos, ltb_ℤ}
use mali.Rat.{is_negative, is_positive}
use mali.Time.{zero_time}
use mali.Domain.{Uuid, is_nil, Wallet}
use mali.Amount.{normalize_currency_code, normalize_amount, parse_amount}
use mali.Context.{
  Error, Result, ok, err, failure, invalid, wrapped, is_not_found, M, pure, lift, on_error,
  raise_if, ◌>>=◌, ◌>>◌,
}
use mali.Wallet.Repo

pub record CreateWalletInput : Type 0 where
  pub user_id : Uuid
  pub name : String
  pub currency : String
  pub wallet_type : String
  pub balance : String

pub record UpdateBalanceInput : Type 0 where
  pub user_id : Uuid
  pub wallet_id : Uuid
  pub balance : String

pub record UpdateWalletNameInput : Type 0 where
  pub user_id : Uuid
  pub wallet_id : Uuid
  pub name : String

pub record DeleteWalletInput : Type 0 where
  pub user_id : Uuid
  pub wallet_id : Uuid

-- A service holds its dependencies; `has_repository` says that the repository is not nil.
pub record WalletService : Type 0 where
  pub has_repository : Bool
  pub supported_currencies : List String

-- The set of normalized codes, without the blank ones.
unfoldable pub currency_set : List String → List String
unfolding normalize_currency_code
currency_set [] = []
currency_set (code ∷ codes) =
    let rest = currency_set codes in
    let normalized = normalize_currency_code code in
    if is_empty normalized then rest else normalized ∷ rest

abbrev built : List String → Result WalletService
built [] = err (invalid "supported currencies are required")
built (c ∷ cs) = ok (record { has_repository = true; supported_currencies = c ∷ cs })

unfoldable pub new_wallet_service : Bool → List String → Result WalletService
unfolding currency_set
new_wallet_service has_repository codes =
    if not has_repository
    then err (invalid "wallet repository is required")
    else built (currency_set codes)

unfoldable pub is_supported_currency : WalletService → String → Bool
unfolding exists
is_supported_currency s code = exists (λ c. str_eq c code) s.supported_currencies

abbrev pub not_configured : Error
not_configured = failure "wallet service dependencies are not configured"

abbrev pub wallet_lookup_error : Error → Error
wallet_lookup_error e =
    if is_not_found e then invalid "wallet not found" else wrapped "find wallet by id" e

-- getOwnedWallet, of WalletService and of TransactionService
unfoldable pub get_owned_wallet : Uuid → Uuid → M Wallet
get_owned_wallet user_id wallet_id = do
  wallet ← on_error wallet_lookup_error (Repo.find_by_id wallet_id)
  raise_if (not (wallet.user_id == user_id)) (invalid "wallet not found")
  pure wallet

abbrev pub default_zero : String → String
default_zero balance = if is_empty balance then "0" else balance

module _ (s : WalletService) where
  unfoldable pub create_wallet : CreateWalletInput → M Wallet
  unfolding normalize_currency_code normalize_amount parse_amount is_supported_currency
  create_wallet input = do
    raise_if (not s.has_repository) not_configured
    raise_if (is_nil input.user_id) (invalid "user_id is required")
    let name = trim_space input.name
    let currency = normalize_currency_code input.currency
    let wallet_type = trim_space input.wallet_type
    let balance = default_zero (normalize_amount input.balance)
    raise_if (is_empty name) (invalid "wallet name is required")
    raise_if (is_empty wallet_type) (invalid "wallet_type is required")
    raise_if (not (is_supported_currency s currency)) (invalid "unsupported currency code")
    on_error (λ _. invalid "invalid wallet balance") (lift (parse_amount balance))
    on_error (wrapped "create wallet") (
        Repo.create (record {
          id = 0;
          user_id = input.user_id;
          name = name;
          currency = currency;
          wallet_type = wallet_type;
          balance = balance;
          is_active = true;
          created_at = zero_time;
        }))

  unfoldable pub list_wallets : Uuid → M (List Wallet)
  list_wallets user_id = do
    raise_if (not s.has_repository) not_configured
    raise_if (is_nil user_id) (invalid "user_id is required")
    on_error (wrapped "list wallets") (Repo.list_by_user user_id)

  unfoldable pub update_balance : UpdateBalanceInput → M (Unit {0})
  unfolding normalize_amount parse_amount
  update_balance input = do
    raise_if (not s.has_repository) not_configured
    raise_if (is_nil input.user_id) (invalid "user_id is required")
    raise_if (is_nil input.wallet_id) (invalid "wallet_id is required")
    let balance = normalize_amount input.balance
    raise_if (is_empty balance) (invalid "balance is required")
    on_error (λ _. invalid "invalid wallet balance") (lift (parse_amount balance))
    get_owned_wallet input.user_id input.wallet_id
    on_error (wrapped "update wallet balance") (Repo.update_balance input.wallet_id balance)

  unfoldable pub update_name : UpdateWalletNameInput → M (Unit {0})
  update_name input = do
    raise_if (not s.has_repository) not_configured
    raise_if (is_nil input.user_id) (invalid "user_id is required")
    raise_if (is_nil input.wallet_id) (invalid "wallet_id is required")
    let name = trim_space input.name
    raise_if (is_empty name) (invalid "wallet name is required")
    get_owned_wallet input.user_id input.wallet_id
    on_error (wrapped "update wallet name") (Repo.update_name input.wallet_id name)

  unfoldable pub delete : DeleteWalletInput → M (Unit {0})
  unfolding parse_amount
  delete input = do
    raise_if (not s.has_repository) not_configured
    raise_if (is_nil input.user_id) (invalid "user_id is required")
    raise_if (is_nil input.wallet_id) (invalid "wallet_id is required")
    wallet ← get_owned_wallet input.user_id input.wallet_id
    amount ← on_error (λ _. invalid "invalid wallet balance") (lift (parse_amount wallet.balance))
    raise_if (is_negative amount || is_positive amount)
        (invalid "wallet with non-zero balance cannot be deleted")
    on_error (wrapped "soft delete wallet") (Repo.soft_delete input.wallet_id)
