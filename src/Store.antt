-- ===== src/Store.antt =====
-- The tables (mali_api/db/migrations) that the repositories read and write. A DECIMAL(18,4) column holds
-- a whole number of ten-thousandths, a DECIMAL(18,8) one of hundred-millionths.
use mali.Prelude.{ℕ, Bool, Option, List, [], String}
use mali.Prelude.Int.{ℤ}
use mali.Time.{Time}
use mali.Domain.{Uuid, RefreshToken, User, Category}
use mali.Json.{Json}

pub record WalletRow : Type 0 where
  pub id : Uuid
  pub user_id : Uuid
  pub name : String
  pub currency : String
  pub wallet_type : String
  pub balance : ℤ
  pub is_active : Bool
  pub created_at : Time

pub record TransactionRow : Type 0 where
  pub id : Uuid
  pub user_id : Uuid
  pub wallet_id : Uuid
  pub category_id : Option Uuid
  pub tx_type : String
  pub amount : ℤ
  pub currency : String
  pub notes : Option String
  pub source : String
  pub transacted_at : Time
  pub created_at : Time
  pub is_deleted : Bool
  pub sync_id : Option Uuid
  pub transfer_to_wallet_id : Option Uuid
  pub exchange_rate : Option ℤ

pub record GoalRow : Type 0 where
  pub id : Uuid
  pub user_id : Uuid
  pub name : String
  pub emoji : Option String
  pub goal_type : Option String
  pub target_amount : ℤ
  pub currency : String
  pub saved_amount : ℤ
  pub required_monthly : ℤ
  pub deadline : Option Time
  pub priority : ℤ
  pub is_completed : Bool
  pub created_at : Time

pub record ContributionRow : Type 0 where
  pub id : Uuid
  pub goal_id : Uuid
  pub amount : ℤ
  pub currency : String
  pub notes : Option String
  pub contributed_at : Time

pub record BudgetRow : Type 0 where
  pub id : Uuid
  pub user_id : Uuid
  pub category_id : Uuid
  pub currency : String
  pub amount : ℤ
  pub month : ℕ
  pub year : ℕ
  pub rollover : Bool

pub record RateRow : Type 0 where
  pub id : Uuid
  pub user_id : Uuid
  pub from_currency : String
  pub to_currency : String
  pub rate : ℤ
  pub source : String
  pub valid_at : Time

-- A JSONB column: an empty object stands in for a payload that there is none of.
pub record SyncLogRow : Type 0 where
  pub id : Uuid
  pub user_id : Uuid
  pub entity_type : String
  pub entity_id : Uuid
  pub operation : String
  pub payload : Json
  pub synced_at : Time

pub record Db : Type 0 where
  pub wallets : List WalletRow
  pub transactions : List TransactionRow
  pub goals : List GoalRow
  pub contributions : List ContributionRow
  pub budgets : List BudgetRow
  pub rates : List RateRow
  pub users : List User
  pub refresh_tokens : List RefreshToken
  pub categories : List Category
  pub sync_log : List SyncLogRow

abbrev pub empty_db : Db
empty_db = record {
  wallets = [];
  transactions = [];
  goals = [];
  contributions = [];
  budgets = [];
  rates = [];
  users = [];
  refresh_tokens = [];
  categories = [];
  sync_log = [];
}
