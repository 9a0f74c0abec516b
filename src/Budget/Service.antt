-- ===== src/Budget/Service.antt =====
-- usecase/budget_service.go. A month or a year below zero is written as zero, which the source treats
-- alike.
use mali.Prelude.{ℕ, Bool, true, false, List, [], ◌∷◌, ◌++◌, ◌&&◌, ◌||◌, String}
use mali.Prelude.Tests.{◌==◌, ltb, leb, if◌then◌else◌, not}
use mali.Prelude.Text.{is_empty}
use mali.Rat.{of_ℕ, sub, mul, quo, le, is_positive}
use mali.Rat.Text.{float_string}
use mali.Time.{Time}
use mali.Domain.{Uuid, is_nil, Budget}
use mali.Amount.{normalize_currency_code, normalize_amount, parse_amount}
use mali.Context.{
  Error, Result, ok, err, failure, invalid, wrapped, ExceededEvent, M, pure, lift, on_error,
  raise_if, now, call, ◌>>=◌, ◌>>◌,
}
use mali.Budget.Repo

pub record GetBudgetStatusInput : Type 0 where
  pub user_id : Uuid
  pub month : ℕ
  pub year : ℕ

pub record UpsertBudgetInput : Type 0 where
  pub user_id : Uuid
  pub category_id : Uuid
  pub currency : String
  pub amount : String
  pub month : ℕ
  pub year : ℕ
  pub rollover : Bool

pub record BudgetStatus : Type 0 where
  pub budget : Budget
  pub spent : String
  pub remaining : String
  pub percent_used : String

-- Whether the repository and the emitter are set; the thresholds it remembers stand in the world.
pub record BudgetService : Type 0 where
  pub has_repository : Bool
  pub has_emitter : Bool

unfoldable pub new_budget_service : Bool → Result BudgetService
new_budget_service has_repository =
    if not has_repository
    then err (invalid "budget repository is required")
    else ok (record { has_repository = true; has_emitter = false })

unfoldable pub set_budget_exceeded_emitter : Bool → BudgetService → BudgetService
set_budget_exceeded_emitter emitter s = record s { has_emitter = emitter }

abbrev pub not_configured : Error
not_configured = failure "budget service dependencies are not configured"

abbrev pub is_month : ℕ → Bool
is_month n = leb 1 n && leb n 12

unfoldable pub compute_budget_status : Budget → String → Result (BudgetStatus × ℕ)
unfolding normalize_amount parse_amount
compute_budget_status budget spent_amount = elim (parse_amount (normalize_amount budget.amount)) [
  | err _ ↦ err (invalid "invalid budget amount")
  | ok amount ↦
      if not (is_positive amount)
      then err (invalid "budget amount must be greater than 0")
      else elim (parse_amount (normalize_amount spent_amount)) [
        | err _ ↦ err (invalid "invalid spent amount")
        | ok spent ↦
            let percent_used = quo (mul spent (of_ℕ 100)) amount in
            ok (
              record {
                budget = budget;
                spent = float_string 4 spent;
                remaining = float_string 4 (sub amount spent);
                percent_used = float_string 4 percent_used;
              },
              if le (of_ℕ 100) percent_used
                  then 100
                  else if le (of_ℕ 80) percent_used
                  then 80
                  else 0,
            )
      ]
]

-- The emitter is another component: it may fail, and then has received nothing.
unfoldable pub emit_budget_exceeded : ExceededEvent → M (Unit {0})
unfolding ◌>>=◌
emit_budget_exceeded event =
    call >> λ p w. (ok tt, record w { exceeded = w.exceeded ++ event ∷ [] })

-- `s.lastEmittedThreshold[key]`
unfoldable pub last_emitted_threshold : Uuid → ℕ → ℕ → M ℕ
last_emitted_threshold id month year p w = (ok (w.emitted id month year), w)

unfoldable pub set_emitted_threshold : Uuid → ℕ → ℕ → ℕ → M (Unit {0})
set_emitted_threshold id month year threshold p w = (
  ok tt,
  record w {
    emitted = λ i m y. if i == id && m == month && y == year then threshold else w.emitted i m y;
  },
)

module _ (input : GetBudgetStatusInput) (status : BudgetStatus) (previous current : ℕ) where
  abbrev pub event_at : ℕ → Time → ExceededEvent
  event_at threshold occurred_at = record {
    user_id = input.user_id;
    budget_id = status.budget.id;
    category_id = status.budget.category_id;
    month = input.month;
    year = input.year;
    threshold = threshold;
    budget_amount = status.budget.amount;
    spent_amount = status.spent;
    percent_used = status.percent_used;
    occurred_at = occurred_at;
  }

  unfoldable pub emit_event : ℕ → M (Unit {0})
  unfolding emit_budget_exceeded
  emit_event threshold = do
    occurred_at ← now
    on_error (wrapped "emit budget exceeded")
        (emit_budget_exceeded (event_at threshold occurred_at))

  abbrev pub crossed : ℕ → Bool
  crossed threshold = ltb previous threshold && leb threshold current

  unfoldable pub emit_threshold : ℕ → M (Unit {0})
  unfolding emit_event
  emit_threshold threshold = if crossed threshold then emit_event threshold else pure tt

  unfoldable pub emit_thresholds : List ℕ → M (Unit {0})
  unfolding emit_threshold
  emit_thresholds [] = pure tt
  emit_thresholds (threshold ∷ rest) = do emit_threshold threshold; emit_thresholds rest

module _ (s : BudgetService) where
  unfoldable pub upsert_budget : UpsertBudgetInput → M Budget
  unfolding normalize_currency_code normalize_amount parse_amount
  upsert_budget input = do
    raise_if (not s.has_repository) not_configured
    raise_if (is_nil input.user_id) (invalid "user_id is required")
    raise_if (is_nil input.category_id) (invalid "category_id is required")
    let currency = normalize_currency_code input.currency
    raise_if (is_empty currency) (invalid "currency is required")
    raise_if (not (is_month input.month)) (invalid "month must be between 1 and 12")
    raise_if (ltb input.year 1) (invalid "year is required")
    let amount = normalize_amount input.amount
    value ← on_error (λ _. invalid "invalid amount") (lift (parse_amount amount))
    raise_if (not (is_positive value)) (invalid "amount must be greater than 0")
    on_error (wrapped "upsert budget") (
        Repo.upsert (record {
          id = 0;
          user_id = input.user_id;
          category_id = input.category_id;
          currency = currency;
          amount = amount;
          month = input.month;
          year = input.year;
          rollover = input.rollover;
        }))

  unfoldable pub emit_budget_exceeded_if_crossed :
      GetBudgetStatusInput → BudgetStatus → ℕ → M (Unit {0})
  unfolding emit_thresholds last_emitted_threshold set_emitted_threshold
  emit_budget_exceeded_if_crossed input status current =
      if not s.has_emitter || current == 0 then pure tt else do
        previous ← last_emitted_threshold status.budget.id input.month input.year
        emit_thresholds input status previous current (80 ∷ 100 ∷ [])
        set_emitted_threshold status.budget.id input.month input.year current

  unfoldable pub budget_statuses : GetBudgetStatusInput → List Budget → M (List BudgetStatus)
  unfolding compute_budget_status emit_budget_exceeded_if_crossed
  budget_statuses input [] = pure []
  budget_statuses input (budget ∷ budgets) = do
    spent ←
        on_error (wrapped "get budget spent by category")
          (Repo.get_spent_by_category input.user_id budget.category_id input.month input.year)
    (status, threshold) ← lift (compute_budget_status budget spent)
    emit_budget_exceeded_if_crossed input status threshold
    rest ← budget_statuses input budgets
    pure (status ∷ rest)

  unfoldable pub get_budget_status : GetBudgetStatusInput → M (List BudgetStatus)
  unfolding budget_statuses
  get_budget_status input = do
    raise_if (not s.has_repository) not_configured
    raise_if (is_nil input.user_id) (invalid "user_id is required")
    raise_if (not (is_month input.month)) (invalid "month must be between 1 and 12")
    raise_if (ltb input.year 1) (invalid "year is required")
    budgets ←
        on_error (wrapped "list budgets by user month")
          (Repo.list_by_user_month input.user_id input.month input.year)
    budget_statuses input budgets
