-- ===== src/Analytics/Agreement.antt =====
-- A report's totals and its trend agree (Analytics/Service).
use mali.Prelude.{ℕ, ◌≡◌, ◌∙◌, ◌&&◌, refl, sym, ap, Bool, List, [], ◌∷◌, map, arith}
use mali.Prelude.Tests.{◌==◌, if◌then◌else◌}
use mali.Prelude.Lists.{select}
use mali.Domain.{Uuid}
use mali.Store.{TransactionRow}
use mali.Context.{ok, Platform, World, pure, wrapped, on_error, ◌>>=◌}
use mali.Context.Success.{bind_ok, on_error_ok}
use mali.Analytics.Repo
use mali.Analytics.Repo.{
  of_month, in_window, in_currency, total_of, monthly_totals, TrendKey, trend_key, same_point,
  point_before, point_of, monthly_trend, MonthlyTotal, MonthlyTrendPoint,
}
use mali.Analytics.Service.{
  AnalyticsService, GetMonthlyReportInput, MonthlyReport, currency_summary, trend_summary,
  default_trend_months, validate_monthly_input, get_monthly_report,
}

-- A choice from a choice depends on the two tests together.
pub select-select_eq :
    {A : Type 0} (p q p' q' : A → Bool)
    → ((x : A) → (q x && p x) ≡ (q' x && p' x))
    → (xs : List A) → select p (select q xs) ≡ select p' (select q' xs)
unfolding select
select-select_eq p q p' q' h [] = refl
select-select_eq p q p' q' h (x ∷ xs) = ground (arith, h x, select-select_eq p q p' q' h xs)

abbrev pub months_of : GetMonthlyReportInput → ℕ
months_of input = if input.trend_months == 0 then default_trend_months else input.trend_months

module _ (user_id : Uuid) (month year : ℕ) (p : Platform) (w : World) where
  totals_ok :
      (ts : List MonthlyTotal)
      → (Repo.get_monthly_totals user_id month year p w).0 ≡ ok ts
      → (ts ≡ monthly_totals p (select (of_month user_id month year) w.db.transactions))
        × ((Repo.get_monthly_totals user_id month year p w).1.db ≡ w.db)
  unfolding Repo.get_monthly_totals ◌>>=◌
  totals_ok ts h = (ground arith, ground arith)

  breakdown_db : (Repo.get_category_breakdown user_id month year p w).1.db ≡ w.db
  unfolding Repo.get_category_breakdown ◌>>=◌
  breakdown_db = ground arith

  trend_ok :
      (months : ℕ) (ts : List MonthlyTrendPoint)
      → (Repo.get_monthly_trend user_id month year months p w).0 ≡ ok ts
      → ts ≡ monthly_trend p (select (in_window user_id month year months) w.db.transactions)
  unfolding Repo.get_monthly_trend ◌>>=◌
  trend_ok months ts h = ground arith

validate_db :
    (s : AnalyticsService) (user_id : Uuid) (month year : ℕ) (p : Platform) (w : World)
    → (validate_monthly_input s user_id month year p w).1.db ≡ w.db
unfolding validate_monthly_input ◌>>=◌
validate_db s user_id month year p w = ground arith

abbrev pub of_report : GetMonthlyReportInput → TransactionRow → Bool
of_report input = of_month input.user_id input.month input.year

abbrev pub of_trend : GetMonthlyReportInput → TransactionRow → Bool
of_trend input = in_window input.user_id input.month input.year (months_of input)

pub ok_injective : {A : Type 0} {a b : A} → ok a ≡ ok b → a ≡ b
ok_injective h = cc

pub reported :
    (s : AnalyticsService) (input : GetMonthlyReportInput) (p : Platform) (w : World)
    (out : MonthlyReport)
    → (get_monthly_report s input p w).0 ≡ ok out
    → (out.totals
        ≡ map currency_summary (monthly_totals p (select (of_report input) w.db.transactions)))
      × (out.monthly_trend
          ≡ map trend_summary (monthly_trend p (select (of_trend input) w.db.transactions)))
unfolding get_monthly_report pure
reported s input p w out done =
    let (_, _, k, _) =
      bind_ok (validate_monthly_input s input.user_id input.month input.year) _ p w out done in
    let w₁ = (validate_monthly_input s input.user_id input.month input.year p w).1 in
    let (ts, t, k₂, _) = bind_ok _ _ p w₁ out k in
    let (t', e) =
      on_error_ok _ (Repo.get_monthly_totals input.user_id input.month input.year) p w₁ ts t in
    let w₂ =
      (on_error (wrapped "get monthly totals")
        (Repo.get_monthly_totals input.user_id input.month input.year) p w₁).1 in
    let (bs, b, k₃, _) = bind_ok _ _ p w₂ out k₂ in
    let (_, e₂) =
      on_error_ok _ (Repo.get_category_breakdown input.user_id input.month input.year) p w₂ bs b in
    let w₃ =
      (on_error (wrapped "get category breakdown")
        (Repo.get_category_breakdown input.user_id input.month input.year) p w₂).1 in
    let (points, q, k₄, _) = bind_ok _ _ p w₃ out k₃ in
    let (q', _) =
      on_error_ok _ (Repo.get_monthly_trend input.user_id input.month input.year (months_of input))
        p w₃ points q in
    let (_, _, k₅, _) = bind_ok _ _ p _ out k₄ in
    let made = ok_injective k₅ in
    let (first, kept) = totals_ok input.user_id input.month input.year p w₁ ts t' in
    let same₁ = validate_db s input.user_id input.month input.year p w in
    let same₃ : w₃.db ≡ w.db =
      ap (λ v. v.db) e₂
      ∙ breakdown_db input.user_id input.month input.year p w₂
      ∙ ap (λ v. v.db) e
      ∙ kept
      ∙ same₁ in
    (
      ap (λ r. r.totals) (sym made)
          ∙ ap (map currency_summary)
              (first ∙ ap (λ d. monthly_totals p (select (of_report input) d.transactions)) same₁),
      ap (λ r. r.monthly_trend) (sym made)
          ∙ ap (map trend_summary) (
              trend_ok input.user_id input.month input.year p w₃ (months_of input) points q'
              ∙ ap (λ d. monthly_trend p (select (of_trend input) d.transactions)) same₃),
    )
