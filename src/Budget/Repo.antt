-- ===== src/Budget/Repo.antt =====
-- repository/postgres/budget_repo.go with repository/sqlc/budgets.sql.go: the budgets table, and what was
-- spent. Months begin and end at midnight UTC, the server's time zone.
use mali.Prelude.{ℕ, Bool, Option, none, some, List, [], ◌∷◌, ◌&&◌, String, str_eq, map}
use mali.Prelude.Tests.{◌==◌, ltb, not}
use mali.Prelude.Lists.{find, select, update, order_by}
use mali.Prelude.Int.{ℤ, pos, ◌+ℤ◌}
use mali.Time.{date}
use mali.Domain.{Uuid, Budget}
use mali.Store.{TransactionRow, BudgetRow, Db}
use mali.Context.{
  wrapped, Platform, M, pure, on_error, gets, modify, new_uuid, platform, call, ◌>>=◌, ◌>>◌,
}
use mali.Wallet.Repo.{numeric_from_string, to_column}
use mali.Transaction.Repo.{is_some_of}

-- mapSQLCBudgetToDomain
abbrev pub to_domain : Platform → BudgetRow → Budget
to_domain p r = record {
  id = r.id;
  user_id = r.user_id;
  category_id = r.category_id;
  currency = r.currency;
  amount = p.render 4 r.amount;
  month = r.month;
  year = r.year;
  rollover = r.rollover;
}

-- The table's unique columns.
abbrev pub keyed : Uuid → Uuid → ℕ → ℕ → BudgetRow → Bool
keyed user_id category_id month year r =
    r.user_id == user_id && r.category_id == category_id && r.month == month && r.year == year

abbrev pub set_budgets : (List BudgetRow → List BudgetRow) → Db → Db
set_budgets f d = record d { budgets = f d.budgets }

-- `DO UPDATE SET`
abbrev pub overwritten : Budget → ℤ → BudgetRow → BudgetRow
overwritten b amount r = record r { currency = b.currency; amount = amount; rollover = b.rollover }

abbrev pub same_key : Budget → BudgetRow → Bool
same_key b = keyed b.user_id b.category_id b.month b.year

abbrev pub new_row : Budget → ℤ → Uuid → BudgetRow
new_row b amount id = record {
  id = id;
  user_id = b.user_id;
  category_id = b.category_id;
  currency = b.currency;
  amount = amount;
  month = b.month;
  year = b.year;
  rollover = b.rollover;
}

-- `INSERT … ON CONFLICT`: the row with this key is overwritten if there is one.
unfoldable pub store : Budget → ℤ → Option BudgetRow → M BudgetRow
store b amount none = do
  id ← new_uuid
  modify (set_budgets (λ rows. new_row b amount id ∷ rows))
  pure (new_row b amount id)
store b amount (some r) = do
  modify (set_budgets (update (same_key b) (overwritten b amount)))
  pure (overwritten b amount r)

unfoldable pub upsert : Budget → M Budget
unfolding numeric_from_string to_column store
upsert b = do
  x ← on_error (wrapped "parse budget amount") (numeric_from_string b.amount)
  on_error (wrapped "upsert budget") call
  amount ← on_error (wrapped "upsert budget") (to_column 4 x)
  found ← gets (λ d. find (same_key b) d.budgets)
  row ← store b amount found
  p ← platform
  pure (to_domain p row)

abbrev by_category : BudgetRow → BudgetRow → Bool
by_category r s = ltb r.category_id s.category_id

unfoldable pub list_by_user_month : Uuid → ℕ → ℕ → M (List Budget)
list_by_user_month user_id month year = do
  on_error (wrapped "list budgets by user month") call
  rows ←
      gets (λ d. select (λ r. r.user_id == user_id && r.month == month && r.year == year) d.budgets)
  p ← platform
  pure (map (to_domain p) (order_by by_category rows))

-- The expenses of a category in a month.
abbrev pub is_spent : Uuid → Uuid → ℕ → ℕ → TransactionRow → Bool
is_spent user_id category_id month year t =
    t.user_id == user_id
    && is_some_of t.category_id category_id
    && str_eq t.tx_type "expense"
    && not t.is_deleted
    && (date t.transacted_at).year == year
    && (date t.transacted_at).month == month

unfoldable pub sum_amounts : List TransactionRow → ℤ
sum_amounts [] = pos 0
sum_amounts (t ∷ ts) = t.amount +ℤ sum_amounts ts

-- `COALESCE(SUM(t.amount), 0)`
unfoldable pub render_sum : Platform → List TransactionRow → String
render_sum p [] = "0"
render_sum p (t ∷ ts) = p.render 4 (sum_amounts (t ∷ ts))

unfoldable pub get_spent_by_category : Uuid → Uuid → ℕ → ℕ → M String
unfolding render_sum
get_spent_by_category user_id category_id month year = do
  on_error (wrapped "get budget spent") call
  rows ← gets (λ d. select (is_spent user_id category_id month year) d.transactions)
  p ← platform
  pure (render_sum p rows)
