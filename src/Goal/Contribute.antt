-- ===== src/Goal/Contribute.antt =====
-- Contribute of usecase/goal_service.go.
use mali.Prelude.{Option, none, some, String}
use mali.Prelude.Tests.{◌==◌, if◌then◌else◌, not}
use mali.Prelude.Text.{trim_space, is_empty}
use mali.Rat.{Rat, add, le, is_positive}
use mali.Rat.Text.{float_string}
use mali.Time.{Time, is_zero, after}
use mali.Domain.{is_nil, Goal}
use mali.Amount.{normalize_currency_code, normalize_amount, parse_amount}
use mali.Context.{invalid, wrapped, M, pure, lift, on_error, raise_if, now, ◌>>=◌, ◌>>◌}
use mali.Goal.Months.{normalize_date, Heap, Pointer, write, compute_required_monthly}
use mali.Goal.Repo
use mali.Goal.Milestones.{emit_milestones}
use mali.Goal.Service.{
  GoalService, ContributeGoalInput, not_configured, goal_lookup_error, parse_or, non_blank,
}

-- Where the method's amounts live: `currentSaved.Add(currentSaved, …)` answers its receiver, so
-- `updatedSaved` is the same pointer as `currentSaved`.
abbrev pub target_amount : Pointer
target_amount = 0

abbrev pub current_saved : Pointer
current_saved = 1

abbrev pub updated_saved : Pointer
updated_saved = current_saved

abbrev amounts : Rat → Rat → Heap
amounts target saved q = if q == target_amount then target else saved

-- The new monthly amount is stored while the deadline lies ahead; the goal and the heap afterwards.
unfoldable pub refresh_for : Heap → Goal → Option Time → M (Goal × Heap)
refresh_for heap goal none = pure (goal, heap)
refresh_for heap goal (some deadline) = do
  time ← now
  let today = normalize_date time
  if not (after (normalize_date deadline) today) then pure (goal, heap) else do
    (required_monthly, _, heap') ←
        lift (
          compute_required_monthly heap target_amount updated_saved today (normalize_date deadline))
    let goal' = record goal { required_monthly = float_string 4 (heap' required_monthly) }
    on_error (wrapped "update goal required monthly") (Repo.update_goal goal')
    pure (goal', heap')

unfoldable pub refresh_monthly : Heap → Goal → M (Goal × Heap)
unfolding refresh_for
refresh_monthly heap goal = refresh_for heap goal goal.deadline

abbrev or_default : String → String → String
or_default text default = if is_empty text then default else text

-- `if contributedAt.IsZero() { contributedAt = s.now().UTC() }`
unfoldable pub time_or_now : Time → M Time
time_or_now t = if is_zero t then now else pure t

unfoldable pub contribute : GoalService → ContributeGoalInput → M Goal
unfolding normalize_currency_code normalize_amount parse_amount refresh_monthly time_or_now
contribute s input = do
  raise_if (not s.has_repository) not_configured
  raise_if (is_nil input.user_id) (invalid "user_id is required")
  raise_if (is_nil input.goal_id) (invalid "goal_id is required")
  let amount = normalize_amount input.amount
  value ← parse_or "invalid contribution amount" amount
  raise_if (not (is_positive value)) (invalid "contribution amount must be greater than 0")
  goal ←
      on_error (goal_lookup_error "find goal by id") (Repo.find_by_id input.user_id input.goal_id)
  saved ← parse_or "invalid goal saved amount" goal.saved_amount
  target ← parse_or "invalid goal target amount" goal.target_amount
  let heap = write (amounts target saved) current_saved (add saved value)
  let updated = float_string 4 (heap updated_saved)
  let currency = or_default (normalize_currency_code input.currency) goal.currency
  raise_if (is_empty currency) (invalid "contribution currency is required")
  contributed_at ← time_or_now input.contributed_at
  on_error (wrapped "create goal contribution") (
      Repo.create_contribution (record {
        id = 0;
        goal_id = goal.id;
        amount = amount;
        currency = currency;
        notes = non_blank (trim_space input.notes);
        contributed_at = contributed_at;
      }))
  on_error (wrapped "update goal saved amount")
      (Repo.update_saved_amount input.user_id input.goal_id updated)
  (goal', heap') ← refresh_monthly heap (record goal {
    saved_amount = updated;
    is_completed = le (heap target_amount) (heap updated_saved);
  })
  emit_milestones s.has_emitter goal' heap' current_saved updated_saved target_amount contributed_at
  pure goal'
