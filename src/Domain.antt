-- ===== src/Domain.antt =====
-- The values that services and repositories exchange (mali_api/internal/domain). A UUID is a number,
-- with `uuid.Nil` 0; an optional field is a pointer of the source; amounts are texts.
use mali.Prelude.{ℕ, Bool, Option, String}
use mali.Prelude.Tests.{◌==◌}
use mali.Prelude.Int.{ℤ}
use mali.Time.{Time}

abbrev pub Uuid : Type 0
Uuid = ℕ

abbrev pub is_nil : Uuid → Bool
is_nil u = u == 0

-- domain/wallet.go
pub record Wallet : Type 0 where
  pub id : Uuid
  pub user_id : Uuid
  pub name : String
  pub currency : String
  pub wallet_type : String
  pub balance : String
  pub is_active : Bool
  pub created_at : Time

-- domain/transaction.go
pub record Transaction : Type 0 where
  pub id : Uuid
  pub user_id : Uuid
  pub wallet_id : Uuid
  pub category_id : Option Uuid
  pub tx_type : String
  pub amount : String
  pub currency : String
  pub notes : Option String
  pub source : String
  pub transacted_at : Time
  pub created_at : Time
  pub is_deleted : Bool
  pub sync_id : Option Uuid
  pub transfer_to_wallet_id : Option Uuid
  pub exchange_rate : Option String

pub record CreateTransactionInput : Type 0 where
  pub user_id : Uuid
  pub wallet_id : Uuid
  pub category_id : Option Uuid
  pub tx_type : String
  pub amount : String
  pub currency : String
  pub notes : Option String
  pub source : String
  pub transacted_at : Time
  pub sync_id : Option Uuid
  pub transfer_to_wallet_id : Option Uuid
  pub exchange_rate : Option String

pub data SortOrder : Type 0 where
  desc asc : SortOrder

pub record TransactionCursor : Type 0 where
  pub transacted_at : Time
  pub id : Uuid

-- What the repository is asked for; `ListTransactionsInput` of the domain.
pub record TransactionQuery : Type 0 where
  pub user_id : Uuid
  pub wallet_id : Option Uuid
  pub category_id : Option Uuid
  pub date_from : Option Time
  pub date_to : Option Time
  pub tx_type : Option String
  pub limit : ℕ
  pub sort_order : SortOrder
  pub cursor : Option TransactionCursor

-- domain/goal.go
pub record Goal : Type 0 where
  pub id : Uuid
  pub user_id : Uuid
  pub name : String
  pub emoji : Option String
  pub goal_type : Option String
  pub target_amount : String
  pub currency : String
  pub saved_amount : String
  pub required_monthly : String
  pub deadline : Option Time
  pub priority : ℤ
  pub is_completed : Bool
  pub created_at : Time

pub record GoalContribution : Type 0 where
  pub id : Uuid
  pub goal_id : Uuid
  pub amount : String
  pub currency : String
  pub notes : Option String
  pub contributed_at : Time

-- domain/budget.go
pub record Budget : Type 0 where
  pub id : Uuid
  pub user_id : Uuid
  pub category_id : Uuid
  pub currency : String
  pub amount : String
  pub month : ℕ
  pub year : ℕ
  pub rollover : Bool

-- domain/refresh_token.go
pub record RefreshToken : Type 0 where
  pub id : Uuid
  pub user_id : Uuid
  pub token_hash : String
  pub device_id : String
  pub expires_at : Time
  pub revoked_at : Option Time
  pub created_at : Time

-- domain/user.go
pub record User : Type 0 where
  pub id : Uuid
  pub email : Option String
  pub phone : Option String
  pub name : String
  pub password_hash : Option String
  pub created_at : Time
  pub updated_at : Time

-- domain/category.go
pub record Category : Type 0 where
  pub id : Uuid
  pub user_id : Option Uuid
  pub name : String
  pub icon : String
  pub color_hex : String
  pub category_type : String

-- domain/exchange_rate.go
pub record ExchangeRate : Type 0 where
  pub id : Uuid
  pub user_id : Uuid
  pub from_currency : String
  pub to_currency : String
  pub rate : String
  pub source : String
  pub valid_at : Time
