-- ===== src/Analytics/Repo.antt =====
-- repository/postgres/analytics_repo.go with repository/sqlc/analytics.sql.go: sums over the transactions,
-- with the records of domain/analytics.go. Months begin and end at midnight UTC, the server's time zone.
use mali.Prelude.{
  ℕ, ◌+◌, ◌*◌, ◌-◌, Bool, true, false, Option, none, some, List, [], ◌∷◌, ◌&&◌, ◌||◌, String,
  str_eq, map,
}
use mali.Prelude.Tests.{◌==◌, ltb, leb, not, if◌then◌else◌}
use mali.Prelude.Lists.{find, select, exists, distinct, order_by}
use mali.Prelude.Int.{ℤ, pos, neg, ◌+ℤ◌, ltb_ℤ}
use mali.Time.{Time, date}
use mali.Domain.{Uuid, Category}
use mali.Store.{TransactionRow}
use mali.Context.{
  failure, wrapped, Platform, M, pure, raise, on_error, gets, platform, call, ◌>>=◌, ◌>>◌,
}
use mali.Budget.Repo.{sum_amounts, render_sum}

pub record MonthlyTotal : Type 0 where
  pub currency : String
  pub income_total : String
  pub expense_total : String
  pub net_total : String

pub record CategoryBreakdown : Type 0 where
  pub category_id : Option Uuid
  pub category_name : Option String
  pub category_icon : Option String
  pub category_color_hex : Option String
  pub currency : String
  pub total_amount : String

pub record MonthlyTrendPoint : Type 0 where
  pub year : ℕ
  pub month : ℕ
  pub currency : String
  pub income_total : String
  pub expense_total : String
  pub net_total : String

abbrev pub is_type : String → TransactionRow → Bool
is_type tx_type t = str_eq t.tx_type tx_type

-- What counts towards the net total: income, and expenses with the sign changed.
abbrev pub signed : TransactionRow → ℤ
signed t =
    if is_type "income" t then t.amount else if is_type "expense" t then neg t.amount else pos 0

unfoldable pub net_of : List TransactionRow → ℤ
net_of [] = pos 0
net_of (t ∷ ts) = signed t +ℤ net_of ts

-- `COALESCE(SUM(CASE … END), 0)`: a sum of nothing but the zeros of the other types has no decimals.
unfoldable pub render_type : Platform → String → List TransactionRow → String
unfolding select render_sum
render_type p tx_type rows = render_sum p (select (is_type tx_type) rows)

unfoldable pub render_net : Platform → List TransactionRow → String
unfolding exists net_of
render_net p rows =
    if exists (λ t. is_type "income" t || is_type "expense" t) rows
    then p.render 4 (net_of rows)
    else "0"

abbrev pub in_currency : String → TransactionRow → Bool
in_currency currency t = str_eq t.currency currency

-- What a month's report is about.
abbrev pub of_month : Uuid → ℕ → ℕ → TransactionRow → Bool
of_month user_id month year t =
    t.user_id == user_id
    && not t.is_deleted
    && (date t.transacted_at).month == month
    && (date t.transacted_at).year == year

abbrev pub total_of : Platform → List TransactionRow → String → MonthlyTotal
total_of p rows currency =
    let group = select (in_currency currency) rows in
    record {
      currency = currency;
      income_total = render_type p "income" group;
      expense_total = render_type p "expense" group;
      net_total = render_net p group;
    }

-- GetMonthlyTotals of the queries
unfoldable pub monthly_totals : Platform → List TransactionRow → List MonthlyTotal
unfolding distinct order_by render_type render_net
monthly_totals p rows =
    map (total_of p rows) (order_by p.collate (distinct str_eq (map (λ t. t.currency) rows)))

unfoldable pub get_monthly_totals : Uuid → ℕ → ℕ → M (List MonthlyTotal)
unfolding monthly_totals
get_monthly_totals user_id month year = do
  on_error (wrapped "get monthly totals") call
  rows ← gets (λ d. select (of_month user_id month year) d.transactions)
  p ← platform
  pure (monthly_totals p rows)

abbrev pub same_id : Option Uuid → Option Uuid → Bool
same_id none none = true
same_id none (some v) = false
same_id (some u) none = false
same_id (some u) (some v) = u == v

-- The category of a row decides its name, icon and colour.
abbrev pub same_group : TransactionRow → TransactionRow → Bool
same_group s t = same_id s.category_id t.category_id && str_eq s.currency t.currency

pub record BreakdownRow : Type 0 where
  pub category_id : Option Uuid
  pub category : Option Category
  pub currency : String
  pub total : ℤ

-- `LEFT JOIN categories c ON c.id = t.category_id`
abbrev pub joined : List Category → Option Uuid → Option Category
joined categories none = none
joined categories (some id) = find (λ c. c.id == id) categories

abbrev pub group_of : List Category → List TransactionRow → TransactionRow → BreakdownRow
group_of categories rows t = record {
  category_id = t.category_id;
  category = joined categories t.category_id;
  currency = t.currency;
  total = sum_amounts (select (same_group t) rows);
}

-- Rows without a name come last.
abbrev pub name_before : Platform → Option Category → Option Category → Bool
name_before p none d = false
name_before p (some c) none = true
name_before p (some c) (some d) = p.collate c.name d.name

abbrev pub listed_before : Platform → BreakdownRow → BreakdownRow → Bool
listed_before p a b =
    ltb_ℤ b.total a.total || (not (ltb_ℤ a.total b.total) && name_before p a.category b.category)

abbrev pub breakdown_of : Platform → BreakdownRow → CategoryBreakdown
breakdown_of p b = record {
  category_id = b.category_id;
  category_name = elim b.category [ none ↦ none | some c ↦ some c.name ];
  category_icon = elim b.category [ none ↦ none | some c ↦ some c.icon ];
  category_color_hex = elim b.category [ none ↦ none | some c ↦ some c.color_hex ];
  currency = b.currency;
  total_amount = p.render 4 b.total;
}

-- GetCategoryBreakdown of the queries
unfoldable pub category_breakdown :
    Platform → List Category → List TransactionRow → List CategoryBreakdown
unfolding distinct order_by sum_amounts find select
category_breakdown p categories rows =
    map (breakdown_of p)
      (order_by (listed_before p) (map (group_of categories rows) (distinct same_group rows)))

unfoldable pub get_category_breakdown : Uuid → ℕ → ℕ → M (List CategoryBreakdown)
unfolding category_breakdown
get_category_breakdown user_id month year = do
  on_error (wrapped "get category breakdown") call
  rows ←
      gets (λ d. select (λ t. of_month user_id month year t && is_type "expense" t) d.transactions)
  categories ← gets (λ d. d.categories)
  p ← platform
  pure (category_breakdown p categories rows)

-- Months, counted from the year 0.
abbrev pub month_number : ℕ → ℕ → ℕ
month_number year month = 12 * year + month

abbrev pub month_of : Time → ℕ
month_of t = month_number (date t).year (date t).month

-- From the first of the months up to the end of the last, `GREATEST(months, 1)` of them.
abbrev pub in_window : Uuid → ℕ → ℕ → ℕ → TransactionRow → Bool
in_window user_id month year months t =
    t.user_id == user_id
    && not t.is_deleted
    && leb (month_number year month) (month_of t.transacted_at + (months - 1))
    && leb (month_of t.transacted_at) (month_number year month)

pub record TrendKey : Type 0 where
  pub year : ℕ
  pub month : ℕ
  pub currency : String

abbrev pub trend_key : TransactionRow → TrendKey
trend_key t = record {
  year = (date t.transacted_at).year;
  month = (date t.transacted_at).month;
  currency = t.currency;
}

abbrev pub same_point : TrendKey → TrendKey → Bool
same_point a b = a.year == b.year && a.month == b.month && str_eq a.currency b.currency

abbrev pub point_before : Platform → TrendKey → TrendKey → Bool
point_before p a b =
    ltb a.year b.year
    || (a.year == b.year
        && (ltb a.month b.month || (a.month == b.month && p.collate a.currency b.currency)))

abbrev pub point_of : Platform → List TransactionRow → TrendKey → MonthlyTrendPoint
point_of p rows k =
    let group = select (λ t. same_point (trend_key t) k) rows in
    record {
      year = k.year;
      month = k.month;
      currency = k.currency;
      income_total = render_type p "income" group;
      expense_total = render_type p "expense" group;
      net_total = render_net p group;
    }

-- GetMonthlyTrend of the queries
unfoldable pub monthly_trend : Platform → List TransactionRow → List MonthlyTrendPoint
unfolding distinct order_by render_type render_net
monthly_trend p rows =
    map (point_of p rows) (order_by (point_before p) (distinct same_point (map trend_key rows)))

abbrev refuse : Option String → M (Unit {0})
refuse none = pure tt
refuse (some message) = raise (failure message)

unfoldable pub get_monthly_trend : Uuid → ℕ → ℕ → ℕ → M (List MonthlyTrendPoint)
unfolding monthly_trend
get_monthly_trend user_id month year months = do
  on_error (wrapped "get monthly trend") call
  p ← platform
  on_error (wrapped "get monthly trend") (refuse (p.window_fault year month months))
  rows ← gets (λ d. select (in_window user_id month year months) d.transactions)
  pure (monthly_trend p rows)
