-- ===== src/Goal/Service.antt =====
-- usecase/goal_service.go
use mali.Prelude.{Bool, true, false, Option, none, some, List, ◌||◌, String}
use mali.Prelude.Tests.{◌==◌, if◌then◌else◌, not}
use mali.Prelude.Text.{trim_space, to_lower, is_empty}
use mali.Prelude.Int.{ℤ}
use mali.Rat.{Rat, is_positive}
use mali.Rat.Text.{float_string}
use mali.Time.{Time, zero_time, is_zero, after}
use mali.Domain.{Uuid, is_nil, Goal}
use mali.Amount.{normalize_currency_code, normalize_amount, parse_amount}
use mali.Context.{
  Error, Result, ok, err, failure, invalid, wrapped, is_not_found, M, lift, on_error, raise_if, now,
  ◌>>=◌, ◌>>◌,
}
use mali.Goal.Months.{normalize_date, Heap, compute_required_monthly}
use mali.Goal.Repo

pub record CreateGoalInput : Type 0 where
  pub user_id : Uuid
  pub name : String
  pub emoji : String
  pub goal_type : String
  pub target_amount : String
  pub currency : String
  pub saved_amount : String
  pub deadline : Time
  pub priority : ℤ

pub record ContributeGoalInput : Type 0 where
  pub user_id : Uuid
  pub goal_id : Uuid
  pub amount : String
  pub currency : String
  pub notes : String
  pub contributed_at : Time

pub record UpdateGoalInput : Type 0 where
  pub user_id : Uuid
  pub goal_id : Uuid
  pub name : String
  pub emoji : String
  pub goal_type : String
  pub target_amount : String
  pub currency : String
  pub deadline : Time
  pub priority : ℤ
  pub is_completed : Bool

-- Whether the repository and the milestone emitter are set.
pub record GoalService : Type 0 where
  pub has_repository : Bool
  pub has_emitter : Bool

unfoldable pub new_goal_service : Bool → Result GoalService
new_goal_service has_repository =
    if not has_repository
    then err (invalid "goal repository is required")
    else ok (record { has_repository = true; has_emitter = false })

unfoldable pub set_milestone_emitter : Bool → GoalService → GoalService
set_milestone_emitter emitter s = record s { has_emitter = emitter }

abbrev pub not_configured : Error
not_configured = failure "goal service dependencies are not configured"

abbrev pub goal_lookup_error : String → Error → Error
goal_lookup_error text e = if is_not_found e then invalid "goal not found" else wrapped text e

abbrev pub parse_or : String → String → M Rat
parse_or text value = on_error (λ _. invalid text) (lift (parse_amount value))

abbrev pub non_blank : String → Option String
non_blank text = if is_empty text then none else some text

abbrev pub lower_of : Option String → Option String
lower_of none = none
lower_of (some text) = some (to_lower text)

-- Two amounts in memory: the target at pointer 0, the saved amount at pointer 1.
abbrev pub two : Rat → Rat → Heap
two target saved q = if q == 0 then target else saved

abbrev default_zero : String → String
default_zero amount = if is_empty amount then "0" else amount

module _ (s : GoalService) where
  unfoldable pub create_goal : CreateGoalInput → M Goal
  unfolding normalize_currency_code normalize_amount parse_amount
  create_goal input = do
    raise_if (not s.has_repository) not_configured
    raise_if (is_nil input.user_id) (invalid "user_id is required")
    let name = trim_space input.name
    raise_if (is_empty name) (invalid "goal name is required")
    let target_amount = normalize_amount input.target_amount
    target ← parse_or "invalid target amount" target_amount
    raise_if (not (is_positive target)) (invalid "target amount must be greater than 0")
    let saved_amount = default_zero (normalize_amount input.saved_amount)
    saved ← parse_or "invalid saved amount" saved_amount
    let currency = normalize_currency_code input.currency
    raise_if (is_empty currency) (invalid "currency is required")
    raise_if (is_zero input.deadline) (invalid "deadline is required")
    let deadline = normalize_date input.deadline
    time ← now
    let today = normalize_date time
    raise_if (not (after deadline today)) (invalid "deadline must be a future date")
    (required_monthly, is_completed, heap) ←
        lift (compute_required_monthly (two target saved) 0 1 today deadline)
    on_error (wrapped "create goal") (
        Repo.create (record {
          id = 0;
          user_id = input.user_id;
          name = name;
          emoji = non_blank (trim_space input.emoji);
          goal_type = lower_of (non_blank (trim_space input.goal_type));
          target_amount = target_amount;
          currency = currency;
          saved_amount = saved_amount;
          required_monthly = float_string 4 (heap required_monthly);
          deadline = some deadline;
          priority = input.priority;
          is_completed = is_completed;
          created_at = zero_time;
        }))

  unfoldable pub list_goals : Uuid → M (List Goal)
  list_goals user_id = do
    raise_if (not s.has_repository) not_configured
    raise_if (is_nil user_id) (invalid "user_id is required")
    on_error (wrapped "list goals") (Repo.list_by_user user_id)

  unfoldable pub get_goal_by_id : Uuid → Uuid → M Goal
  get_goal_by_id user_id goal_id = do
    raise_if (not s.has_repository) not_configured
    raise_if (is_nil user_id) (invalid "user_id is required")
    raise_if (is_nil goal_id) (invalid "goal_id is required")
    on_error (goal_lookup_error "find goal by id") (Repo.find_by_id user_id goal_id)

  unfoldable pub update_goal : UpdateGoalInput → M (Unit {0})
  unfolding normalize_currency_code normalize_amount parse_amount
  update_goal input = do
    raise_if (not s.has_repository) not_configured
    raise_if (is_nil input.user_id) (invalid "user_id is required")
    raise_if (is_nil input.goal_id) (invalid "goal_id is required")
    existing ←
        on_error (goal_lookup_error "find goal by id") (Repo.find_by_id input.user_id input.goal_id)
    let name = trim_space input.name
    raise_if (is_empty name) (invalid "goal name is required")
    let target_amount = normalize_amount input.target_amount
    target ← parse_or "invalid target amount" target_amount
    raise_if (not (is_positive target)) (invalid "target amount must be greater than 0")
    let currency = normalize_currency_code input.currency
    raise_if (is_empty currency) (invalid "currency is required")
    raise_if (is_zero input.deadline) (invalid "deadline is required")
    let deadline = normalize_date input.deadline
    time ← now
    let today = normalize_date time
    saved ← parse_or "invalid goal saved amount" existing.saved_amount
    (required_monthly, is_completed, heap) ←
        lift (compute_required_monthly (two target saved) 0 1 today deadline)
    on_error (wrapped "update goal") (
        Repo.update_goal (record {
          id = input.goal_id;
          user_id = input.user_id;
          name = name;
          emoji = non_blank (trim_space input.emoji);
          goal_type = lower_of (non_blank (trim_space input.goal_type));
          target_amount = target_amount;
          currency = currency;
          saved_amount = existing.saved_amount;
          required_monthly = float_string 4 (heap required_monthly);
          deadline = some deadline;
          priority = input.priority;
          is_completed = input.is_completed || is_completed;
          created_at = zero_time;
        }))

  unfoldable pub delete_goal : Uuid → Uuid → M (Unit {0})
  delete_goal user_id goal_id = do
    raise_if (not s.has_repository) not_configured
    raise_if (is_nil user_id) (invalid "user_id is required")
    raise_if (is_nil goal_id) (invalid "goal_id is required")
    on_error (goal_lookup_error "delete goal") (Repo.delete user_id goal_id)
