-- ===== src/Analytics/Tests.antt =====
-- Reports on concrete inputs.
use mali.Prelude.{◌≡◌, refl, sym, subst, true, none, some, [], ◌∷◌, List, map, Memᴰ}
use mali.Prelude.Int.{pos, ◌+ℤ◌, neg}
use mali.Prelude.Lists.{select, find}
use mali.Prelude.Text.{trim_space}
use mali.Time.{date}
use mali.Store.{TransactionRow}
use mali.Context.{ok, World, ◌>>=◌}
use mali.Sample.{steady, world, tables, lunch, render_column}
use mali.Rat.Text.{set_string, float_string}
use mali.Amount.{normalize_amount, parse_amount}
use mali.Budget.Repo.{sum_amounts}
use mali.Analytics.Repo
use mali.Analytics.Repo.{
  CategoryBreakdown, monthly_totals, monthly_trend, category_breakdown, render_type, render_net,
  net_of,
}
use mali.Analytics.Service.{
  AnalyticsService, GetMonthlyReportInput, MonthlyReport, CurrencySummary, MonthlyTrendSummary,
  category_summary, map_top_categories, map_surplus_deficit, surplus_deficits, get_monthly_report,
}
use mali.Analytics.Top.{IsAmount, AllReadable, IsTop, map_top_categories-IsTop}
use mali.Analytics.Trend.{as_point, as_total, get_monthly_report-trend}

abbrev service : AnalyticsService
service = record { has_analytics = true; top_categories_limit = 5 }

abbrev wages : TransactionRow
wages = record lunch { id = 22; tx_type = "income"; amount = pos 20_000_000; sync_id = none }

abbrev paid : World
paid = record world { db = record tables { transactions = lunch ∷ wages ∷ [] } }

abbrev january : GetMonthlyReportInput
january = record { user_id = 1; month = 1; year = 2027; trend_months = 0 }

abbrev report : MonthlyReport
report = record {
  month = 1;
  year = 2027;
  totals =
      record {
        currency = "USD";
        income_total = "2000.0000";
        expense_total = "12.5000";
        net_total = "1987.5000";
      }
      ∷ [];
  top_categories =
      record {
        category_id = none;
        category_name = none;
        category_icon = none;
        category_color_hex = none;
        currency = "USD";
        total_amount = "12.5000";
      }
      ∷ [];
  monthly_trend =
      record {
        year = 2027;
        month = 1;
        currency = "USD";
        income_total = "2000.0000";
        expense_total = "12.5000";
        net_total = "1987.5000";
      }
      ∷ [];
  surplus_deficit_by_currency =
      record { currency = "USD"; net_total = "1987.5000"; status = "surplus"; amount = "1987.5000" }
      ∷ [];
}

was_reported : (get_monthly_report service january steady paid).0 ≡ ok report
unfolding get_monthly_report Repo.get_monthly_totals Repo.get_category_breakdown
    Repo.get_monthly_trend surplus_deficits map_surplus_deficit map_top_categories normalize_amount
    parse_amount trim_space set_string float_string sum_amounts select find date render_column ◌+ℤ◌
    neg ◌>>=◌
was_reported = refl

get_monthly_report-trend_example :
    ((t : CurrencySummary) → Memᴰ t report.totals → Memᴰ (as_point january t) report.monthly_trend)
    × ((m : MonthlyTrendSummary)
        → Memᴰ m report.monthly_trend
        → m.year ≡ january.year
        → m.month ≡ january.month
        → Memᴰ (as_total m) report.totals)
get_monthly_report-trend_example =
    get_monthly_report-trend service january steady paid report was_reported

abbrev small : CategoryBreakdown
small = record {
  category_id = some 71;
  category_name = some "Food";
  category_icon = none;
  category_color_hex = none;
  currency = "USD";
  total_amount = "9.5000";
}

abbrev large : CategoryBreakdown
large = record small {
  category_id = some 72;
  category_name = some "Rent";
  total_amount = "350.0000";
}

small-IsAmount : IsAmount small (record { num = pos 95000; den = 10000 })
unfolding parse_amount set_string
small-IsAmount = refl

large-IsAmount : IsAmount large (record { num = pos 3500000; den = 10000 })
unfolding parse_amount set_string
large-IsAmount = refl

both_readable : AllReadable (small ∷ large ∷ [])
both_readable b (Memᴰ.head e) = (
  record { num = pos 95000; den = 10000 },
  subst (λ c. IsAmount c (record { num = pos 95000; den = 10000 })) (sym e) small-IsAmount,
)
both_readable b (Memᴰ.tail (Memᴰ.head e)) = (
  record { num = pos 3500000; den = 10000 },
  subst (λ c. IsAmount c (record { num = pos 3500000; den = 10000 })) (sym e) large-IsAmount,
)
both_readable b (Memᴰ.tail (Memᴰ.tail m)) = elim m [ ]

map_top_categories-IsTop_example :
    (shown : List CategoryBreakdown) × (hidden : List CategoryBreakdown) × (map_top_categories
        (small ∷ large ∷ [])
        1
      ≡ map category_summary shown)
    × IsTop (small ∷ large ∷ []) 1 shown hidden
map_top_categories-IsTop_example = map_top_categories-IsTop (small ∷ large ∷ []) 1 both_readable
