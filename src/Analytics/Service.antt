-- ===== src/Analytics/Service.antt =====
-- usecase/analytics_service.go. A month, a year, a number of months or a limit below zero is written as
-- zero, which the source treats alike.
use mali.Prelude.{ℕ, Bool, true, false, Option, List, [], ◌∷◌, ◌||◌, String, ◌^^◌, map}
use mali.Prelude.Tests.{◌==◌, ltb, not, if◌then◌else◌}
use mali.Prelude.Text.{text_before}
use mali.Prelude.Lists.{order_by, take}
use mali.Rat.{Rat, lt, is_negative, is_positive, magnitude}
use mali.Rat.Text.{float_string}
use mali.Domain.{Uuid, is_nil}
use mali.Context.{
  Result, ok, err, failure, invalid, wrapped, M, pure, lift, on_error, raise_if, ◌>>=◌, ◌>>◌,
}
use mali.Amount.{normalize_amount, parse_amount}
use mali.Analytics.Repo
use mali.Analytics.Repo.{MonthlyTotal, CategoryBreakdown, MonthlyTrendPoint}

abbrev pub default_trend_months : ℕ
default_trend_months = 6

abbrev pub default_top_categories_limit : ℕ
default_top_categories_limit = 5

pub record GetMonthlyReportInput : Type 0 where
  pub user_id : Uuid
  pub month : ℕ
  pub year : ℕ
  pub trend_months : ℕ

pub record GetMonthlyTrendInput : Type 0 where
  pub user_id : Uuid
  pub month : ℕ
  pub year : ℕ
  pub months : ℕ

pub record GetCategoryBreakdownInput : Type 0 where
  pub user_id : Uuid
  pub month : ℕ
  pub year : ℕ
  pub limit : ℕ

pub record CurrencySummary : Type 0 where
  pub currency : String
  pub income_total : String
  pub expense_total : String
  pub net_total : String

pub record CategorySummary : Type 0 where
  pub category_id : Option Uuid
  pub category_name : Option String
  pub category_icon : Option String
  pub category_color_hex : Option String
  pub currency : String
  pub total_amount : String

pub record MonthlyTrendSummary : Type 0 where
  pub year : ℕ
  pub month : ℕ
  pub currency : String
  pub income_total : String
  pub expense_total : String
  pub net_total : String

pub record SurplusDeficitSummary : Type 0 where
  pub currency : String
  pub net_total : String
  pub status : String
  pub amount : String

pub record MonthlyReport : Type 0 where
  pub month : ℕ
  pub year : ℕ
  pub totals : List CurrencySummary
  pub top_categories : List CategorySummary
  pub monthly_trend : List MonthlyTrendSummary
  pub surplus_deficit_by_currency : List SurplusDeficitSummary

-- Whether the repository is set, and the limit.
pub record AnalyticsService : Type 0 where
  pub has_analytics : Bool
  pub top_categories_limit : ℕ

unfoldable pub new_analytics_service : Bool → Result AnalyticsService
new_analytics_service true =
    ok (record { has_analytics = true; top_categories_limit = default_top_categories_limit })
new_analytics_service false = err (invalid "analytics repository is required")

-- The order of mapTopCategories: by amount, the greatest first, or by text if an amount cannot be read.
abbrev precedes_read : String → String → Result Rat → Result Rat → Bool
precedes_read left right (ok x) (ok y) = lt y x
precedes_read left right (ok x) (err e) = text_before right left
precedes_read left right (err e) y = text_before right left

unfoldable pub greater : CategoryBreakdown → CategoryBreakdown → Bool
unfolding text_before
greater a b =
    precedes_read a.total_amount b.total_amount (parse_amount a.total_amount)
      (parse_amount b.total_amount)

abbrev pub category_summary : CategoryBreakdown → CategorySummary
category_summary b = record {
  category_id = b.category_id;
  category_name = b.category_name;
  category_icon = b.category_icon;
  category_color_hex = b.category_color_hex;
  currency = b.currency;
  total_amount = b.total_amount;
}

-- A limit of zero shows nothing.
unfoldable pub map_top_categories : List CategoryBreakdown → ℕ → List CategorySummary
unfolding order_by greater
map_top_categories items limit = map category_summary (take limit (order_by greater items))

abbrev pub status_of : Rat → String
status_of x = if is_positive x then "surplus" else if is_negative x then "deficit" else "balanced"

abbrev pub amount_of : Rat → String
amount_of x =
    if is_positive x
    then float_string 4 x
    else if is_negative x
    then float_string 4 (magnitude x)
    else "0.0000"

unfoldable pub map_surplus_deficit : String → String → M SurplusDeficitSummary
unfolding float_string
map_surplus_deficit currency net_total = do
  value ←
      on_error (λ e. invalid ("invalid net total for currency " ^^ currency))
        (lift (parse_amount (normalize_amount net_total)))
  pure (record {
    currency = currency;
    net_total = float_string 4 value;
    status = status_of value;
    amount = amount_of value;
  })

abbrev pub currency_summary : MonthlyTotal → CurrencySummary
currency_summary t = record {
  currency = t.currency;
  income_total = t.income_total;
  expense_total = t.expense_total;
  net_total = t.net_total;
}

abbrev pub trend_summary : MonthlyTrendPoint → MonthlyTrendSummary
trend_summary t = record {
  year = t.year;
  month = t.month;
  currency = t.currency;
  income_total = t.income_total;
  expense_total = t.expense_total;
  net_total = t.net_total;
}

-- The loop over the totals.
unfoldable pub surplus_deficits : List MonthlyTotal → M (List SurplusDeficitSummary)
surplus_deficits [] = pure []
surplus_deficits (t ∷ ts) = do
  sd ← map_surplus_deficit t.currency t.net_total
  rest ← surplus_deficits ts
  pure (sd ∷ rest)

module _ (s : AnalyticsService) where
  unfoldable pub validate_monthly_input : Uuid → ℕ → ℕ → M (Unit {0})
  validate_monthly_input user_id month year = do
    raise_if (not s.has_analytics) (failure "analytics service dependencies are not configured")
    raise_if (is_nil user_id) (invalid "user_id is required")
    raise_if (ltb month 1 || ltb 12 month) (invalid "month must be between 1 and 12")
    raise_if (ltb year 1) (invalid "year is required")

  unfoldable pub get_monthly_report : GetMonthlyReportInput → M MonthlyReport
  unfolding validate_monthly_input
  get_monthly_report input = do
    validate_monthly_input input.user_id input.month input.year
    let trend_months = if input.trend_months == 0 then default_trend_months else input.trend_months
    totals ←
        on_error (wrapped "get monthly totals")
          (Repo.get_monthly_totals input.user_id input.month input.year)
    breakdown ←
        on_error (wrapped "get category breakdown")
          (Repo.get_category_breakdown input.user_id input.month input.year)
    trend ←
        on_error (wrapped "get monthly trend")
          (Repo.get_monthly_trend input.user_id input.month input.year trend_months)
    deficits ← surplus_deficits totals
    pure (record {
      month = input.month;
      year = input.year;
      totals = map currency_summary totals;
      top_categories = map_top_categories breakdown s.top_categories_limit;
      monthly_trend = map trend_summary trend;
      surplus_deficit_by_currency = deficits;
    })

  unfoldable pub get_monthly_trend : GetMonthlyTrendInput → M (List MonthlyTrendSummary)
  unfolding validate_monthly_input
  get_monthly_trend input = do
    validate_monthly_input input.user_id input.month input.year
    let months = if input.months == 0 then default_trend_months else input.months
    points ←
        on_error (wrapped "get monthly trend")
          (Repo.get_monthly_trend input.user_id input.month input.year months)
    pure (map trend_summary points)

  unfoldable pub get_category_breakdown : GetCategoryBreakdownInput → M (List CategorySummary)
  unfolding validate_monthly_input
  get_category_breakdown input = do
    validate_monthly_input input.user_id input.month input.year
    rows ←
        on_error (wrapped "get category breakdown")
          (Repo.get_category_breakdown input.user_id input.month input.year)
    let limit = if input.limit == 0 then s.top_categories_limit else input.limit
    pure (map_top_categories rows limit)
