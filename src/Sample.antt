-- ===== src/Sample.antt =====
-- A platform and tables to run the code on: numbers are read and stored exactly, and by default no call
-- fails.
use mali.Prelude.Text.{text_before}
use mali.Prelude.{ℕ, ◌+◌, ◌*◌, ◌^◌, true, false, Option, none, some, [], ◌∷◌, String}
use mali.Prelude.Tests.{ltb, ◌==◌, if◌then◌else◌}
use mali.Prelude.Int.{ℤ, pos, neg}
use mali.Rat.{Rat, scaled, is_negative}
use mali.Rat.Text.{set_string, float_string}
use mali.Time.{Time, day}
use mali.Store.{WalletRow, TransactionRow, GoalRow, Db, empty_db}
use mali.Context.{Platform, World}

-- DECIMAL(18,scale): to the nearest, halves away from zero, below 10^18 units.
unfoldable pub round_column : ℕ → Rat → Option ℤ
unfolding scaled neg
round_column scale x =
    let n = scaled scale x in
    if ltb n (10 ^ 18) then some (if is_negative x then neg (pos n) else pos n) else none

unfoldable pub render_column : ℕ → ℤ → String
unfolding float_string
render_column scale v = float_string scale (record { num = v; den = 10 ^ scale })

-- The second of January 2027.
abbrev pub today : Time
today = 739982 * day + 366 * day

unfoldable pub reads : String → Option Rat
unfolding set_string
reads text = set_string text

abbrev pub steady : Platform
steady = record {
  fault = λ n. none;
  uuid = λ n. 1000 + n;
  clock = λ n. today + n;
  cast = reads;
  scan = reads;
  column = round_column;
  render = render_column;
  collate = text_before;
  window_fault = λ year month months. none;
}

-- The call with this number fails.
abbrev pub failing_at : ℕ → Platform
failing_at k = record steady { fault = λ n. if n == k then some "connection reset" else none }

abbrev pub cash : WalletRow
cash = record {
  id = 11;
  user_id = 1;
  name = "Cash";
  currency = "USD";
  wallet_type = "cash";
  balance = pos 1_000_000;
  is_active = true;
  created_at = today;
}

abbrev pub bank : WalletRow
bank = record {
  id = 12;
  user_id = 1;
  name = "Bank";
  currency = "ZAR";
  wallet_type = "bank";
  balance = pos 0;
  is_active = true;
  created_at = today;
}

abbrev pub foreign_wallet : WalletRow
foreign_wallet = record {
  id = 13;
  user_id = 2;
  name = "Theirs";
  currency = "USD";
  wallet_type = "cash";
  balance = pos 50_000;
  is_active = true;
  created_at = today;
}

abbrev pub lunch : TransactionRow
lunch = record {
  id = 21;
  user_id = 1;
  wallet_id = 11;
  category_id = none;
  tx_type = "expense";
  amount = pos 125_000;
  currency = "USD";
  notes = none;
  source = "manual";
  transacted_at = today;
  created_at = today;
  is_deleted = false;
  sync_id = some 77;
  transfer_to_wallet_id = none;
  exchange_rate = none;
}

abbrev pub school : GoalRow
school = record {
  id = 31;
  user_id = 1;
  name = "School fees";
  emoji = none;
  goal_type = none;
  target_amount = pos 10_000_000;
  currency = "USD";
  saved_amount = pos 2_000_000;
  required_monthly = pos 0;
  deadline = some (today + 200 * day);
  priority = pos 1;
  is_completed = false;
  created_at = today;
}

abbrev pub tables : Db
tables = record empty_db {
  wallets = cash ∷ bank ∷ foreign_wallet ∷ [];
  transactions = lunch ∷ [];
  goals = school ∷ [];
}

abbrev pub world : World
world = record {
  db = tables;
  calls = 0;
  draws = 0;
  ticks = 0;
  milestones = [];
  exceeded = [];
  emitted = λ id month year. 0;
}
