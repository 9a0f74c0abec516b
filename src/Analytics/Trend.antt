-- ===== src/Analytics/Trend.antt =====
-- The trend's points of the report's month are its totals (Analytics/Service).
use mali.Prelude.{
  ◌≡◌, ◌∙◌, ◌&&◌, refl, sym, ap, subst, true, List, map, String, str_eq, eq_iff, arith, Memᴰ,
}
use mali.Prelude.Tests.{==_iff}
use mali.Prelude.Lists.{select}
use mali.Prelude.Order.{
  mem-order_by, order_by-mem, mem-distinct, distinct-mem, mem-map, map-mem, mem-select, select-mem,
}
use mali.Time.{date}
use mali.Store.{TransactionRow}
use mali.Context.{ok, Platform, World}
use mali.Analytics.Repo.{
  in_currency, total_of, monthly_totals, TrendKey, trend_key, same_point, point_before, point_of,
  monthly_trend, MonthlyTotal, MonthlyTrendPoint,
}
use mali.Analytics.Service.{
  AnalyticsService, GetMonthlyReportInput, MonthlyReport, CurrencySummary, MonthlyTrendSummary,
  currency_summary, trend_summary, get_monthly_report,
}
use mali.Analytics.Agreement.{of_report, of_trend, reported, select-select_eq}

abbrev key_in : GetMonthlyReportInput → String → TrendKey
key_in input currency = record { year = input.year; month = input.month; currency = currency }

-- The total of a currency as a point of the trend, and the other way round.
abbrev pub as_point : GetMonthlyReportInput → CurrencySummary → MonthlyTrendSummary
as_point input t = record {
  year = input.year;
  month = input.month;
  currency = t.currency;
  income_total = t.income_total;
  expense_total = t.expense_total;
  net_total = t.net_total;
}

abbrev pub as_total : MonthlyTrendSummary → CurrencySummary
as_total m = record {
  currency = m.currency;
  income_total = m.income_total;
  expense_total = m.expense_total;
  net_total = m.net_total;
}

module _ (input : GetMonthlyReportInput) where
  one_month :
      (c : String) (t : TransactionRow)
      → (of_trend input t && same_point (trend_key t) (key_in input c))
        ≡ (of_report input t && in_currency c t)
  one_month c t = ground arith

  of_report-of_trend : (t : TransactionRow) → of_report input t ≡ true → of_trend input t ≡ true
  of_report-of_trend t h = ground arith

  key_of_report :
      (t : TransactionRow) → of_report input t ≡ true → trend_key t ≡ key_in input t.currency
  key_of_report t h = ground (
    arith,
    ==_iff (date t.transacted_at).month input.month,
    ==_iff (date t.transacted_at).year input.year,
  )

  of_trend-of_report :
      (t : TransactionRow)
      → of_trend input t ≡ true
      → (date t.transacted_at).year ≡ input.year
      → (date t.transacted_at).month ≡ input.month
      → of_report input t ≡ true
  of_trend-of_report t h y m = ground arith

  one_group :
      (c : String) (tx : List TransactionRow)
      → select (λ t. same_point (trend_key t) (key_in input c)) (select (of_trend input) tx)
        ≡ select (in_currency c) (select (of_report input) tx)
  one_group c tx =
      select-select_eq (λ t. same_point (trend_key t) (key_in input c)) (of_trend input)
        (in_currency c) (of_report input) (one_month c) tx

  one_point :
      (p : Platform) (c : String) (tx : List TransactionRow)
      → trend_summary (point_of p (select (of_trend input) tx) (key_in input c))
        ≡ as_point input (currency_summary (total_of p (select (of_report input) tx) c))
  one_point p c tx = rw (one_group c tx) refl

same_point-eq : (a b : TrendKey) → same_point a b ≡ true → a ≡ b
same_point-eq a b h =
    ground (arith, eq_iff a.currency b.currency, ==_iff a.year b.year, ==_iff a.month b.month)

same_currency-eq : (a b : String) → str_eq a b ≡ true → a ≡ b
same_currency-eq a b h = (eq_iff a b).0 h

module _ (input : GetMonthlyReportInput) (p : Platform) (tx : List TransactionRow) where
  point_listed :
      (r : TransactionRow)
      → Memᴰ r (select (of_trend input) tx)
      → Memᴰ
          (point_of p (select (of_trend input) tx) (trend_key r))
          (monthly_trend p (select (of_trend input) tx))
  unfolding monthly_trend
  point_listed r m = map-mem (point_of p (select (of_trend input) tx)) _ (
      order_by-mem (point_before p) _
        (distinct-mem same_point same_point-eq _ (map-mem trend_key _ m)))

  total_listed :
      (r : TransactionRow)
      → Memᴰ r (select (of_report input) tx)
      → Memᴰ
          (total_of p (select (of_report input) tx) r.currency)
          (monthly_totals p (select (of_report input) tx))
  unfolding monthly_totals
  total_listed r m = map-mem (total_of p (select (of_report input) tx)) _ (
      order_by-mem p.collate _
        (distinct-mem str_eq same_currency-eq _ (map-mem (λ t. t.currency) _ m)))

  listed_total :
      (t : MonthlyTotal)
      → Memᴰ t (monthly_totals p (select (of_report input) tx))
      → (r : TransactionRow) × Memᴰ r (select (of_report input) tx)
        × (t ≡ total_of p (select (of_report input) tx) r.currency)
  unfolding monthly_totals
  listed_total t m =
      let (c, n, e) = mem-map (total_of p (select (of_report input) tx)) _ m in
      let (r, k, f) =
        mem-map (λ x. x.currency) _ (mem-distinct str_eq _ (mem-order_by p.collate _ n)) in
      (r, k, e ∙ ap (total_of p (select (of_report input) tx)) f)

  listed_point :
      (t : MonthlyTrendPoint)
      → Memᴰ t (monthly_trend p (select (of_trend input) tx))
      → (r : TransactionRow) × Memᴰ r (select (of_trend input) tx)
        × (t ≡ point_of p (select (of_trend input) tx) (trend_key r))
  unfolding monthly_trend
  listed_point t m =
      let (c, n, e) = mem-map (point_of p (select (of_trend input) tx)) _ m in
      let (r, k, f) =
        mem-map trend_key _ (mem-distinct same_point _ (mem-order_by (point_before p) _ n)) in
      (r, k, e ∙ ap (point_of p (select (of_trend input) tx)) f)

module _ (s : AnalyticsService) (input : GetMonthlyReportInput) (p : Platform) (w : World)
    (out : MonthlyReport) (done : (get_monthly_report s input p w).0 ≡ ok out) where
  abbrev reported_rows : List TransactionRow
  reported_rows = select (of_report input) w.db.transactions

  abbrev trend_rows : List TransactionRow
  trend_rows = select (of_trend input) w.db.transactions

  total-point :
      (t : CurrencySummary) → Memᴰ t out.totals → Memᴰ (as_point input t) out.monthly_trend
  total-point t m =
      let (totals, trend) = reported s input p w out done in
      let (x, n, e) = mem-map currency_summary _ (subst (Memᴰ t) totals m) in
      let (r, k, f) = listed_total input p w.db.transactions x n in
      let (own, q) = mem-select (of_report input) w.db.transactions k in
      let listed = map-mem trend_summary _ (
        point_listed input p w.db.transactions r
          (select-mem (of_trend input) w.db.transactions own (of_report-of_trend input r q))) in
      let same : trend_summary (point_of p trend_rows (trend_key r)) ≡ as_point input t =
        ap (λ key. trend_summary (point_of p trend_rows key)) (key_of_report input r q)
        ∙ one_point input p r.currency w.db.transactions
        ∙ ap (λ y. as_point input (currency_summary y)) (sym f)
        ∙ ap (as_point input) (sym e) in
      subst (Memᴰ (as_point input t)) (sym trend)
        (subst (λ y. Memᴰ y (map trend_summary (monthly_trend p trend_rows))) same listed)

  point-total :
      (m : MonthlyTrendSummary)
      → Memᴰ m out.monthly_trend
      → m.year ≡ input.year
      → m.month ≡ input.month
      → Memᴰ (as_total m) out.totals
  point-total m n year month =
      let (totals, trend) = reported s input p w out done in
      let (x, k, e) = mem-map trend_summary _ (subst (Memᴰ m) trend n) in
      let (r, o, f) = listed_point input p w.db.transactions x k in
      let (own, q) = mem-select (of_trend input) w.db.transactions o in
      let at = e ∙ ap trend_summary f in
      let h =
        of_trend-of_report input r q (ap (λ y. y.year) (sym at) ∙ year)
          (ap (λ y. y.month) (sym at) ∙ month) in
      let listed = map-mem currency_summary _ (
        total_listed input p w.db.transactions r
          (select-mem (of_report input) w.db.transactions own h)) in
      let same : currency_summary (total_of p reported_rows r.currency) ≡ as_total m = ap as_total (
        sym (one_point input p r.currency w.db.transactions)
        ∙ ap (λ key. trend_summary (point_of p trend_rows key)) (sym (key_of_report input r h))
        ∙ sym at) in
      subst (Memᴰ (as_total m)) (sym totals)
        (subst (λ y. Memᴰ y (map currency_summary (monthly_totals p reported_rows))) same listed)

  -- In a report, the points of the trend for the report's own month are its totals: each total stands in
  -- the trend, with the same sums, and each point of that month is one of the totals.
  pub get_monthly_report-trend :
      ((t : CurrencySummary) → Memᴰ t out.totals → Memᴰ (as_point input t) out.monthly_trend)
      × ((m : MonthlyTrendSummary)
          → Memᴰ m out.monthly_trend
          → m.year ≡ input.year
          → m.month ≡ input.month
          → Memᴰ (as_total m) out.totals)
  get_monthly_report-trend = (total-point, point-total)
