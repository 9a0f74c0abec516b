-- ===== src/Goal/Repo.antt =====
-- repository/postgres/goal_repo.go: the savings_goals and goal_contributions tables.
use mali.Prelude.{Bool, Option, none, some, List, ◌∷◌, ◌&&◌, ◌||◌, String, map}
use mali.Prelude.Tests.{◌==◌, ltb, not, if◌then◌else◌}
use mali.Prelude.Lists.{find, select, update, order_by, exists}
use mali.Prelude.Int.{ℤ, ltb_ℤ, leb_ℤ}
use mali.Time.{Time}
use mali.Domain.{Uuid, Goal, GoalContribution}
use mali.Store.{GoalRow, ContributionRow, Db}
use mali.Context.{
  failure, wrapped, no_rows_error, Platform, M, pure, or_raise, on_error, gets, modify, raise_if,
  now, new_uuid, platform, call, ◌>>=◌, ◌>>◌,
}
use mali.Wallet.Repo.{to_column}
use mali.Goal.Months.{normalize_date}

-- scanGoal
abbrev pub to_domain : Platform → GoalRow → Goal
to_domain p r = record {
  id = r.id;
  user_id = r.user_id;
  name = r.name;
  emoji = r.emoji;
  goal_type = r.goal_type;
  target_amount = p.render 4 r.target_amount;
  currency = r.currency;
  saved_amount = p.render 4 r.saved_amount;
  required_monthly = p.render 4 r.required_monthly;
  deadline = r.deadline;
  priority = r.priority;
  is_completed = r.is_completed;
  created_at = r.created_at;
}

abbrev pub owned : Uuid → Uuid → GoalRow → Bool
owned user_id goal_id r = r.id == goal_id && r.user_id == user_id

abbrev pub set_goals : (List GoalRow → List GoalRow) → Db → Db
set_goals f d = record d { goals = f d.goals }

-- A DATE column keeps the day.
abbrev pub to_date : Option Time → Option Time
to_date none = none
to_date (some t) = some (normalize_date t)

-- `$n::numeric` into a DECIMAL(18,4) column
unfoldable pub numeric_column : String → M ℤ
unfolding to_column
numeric_column value = do
  p ← platform
  x ← or_raise (p.cast value) (failure "invalid input syntax for numeric")
  to_column 4 x

unfoldable pub create : Goal → M Goal
unfolding numeric_column
create goal = do
  on_error (wrapped "scan goal") call
  target_amount ← on_error (wrapped "scan goal") (numeric_column goal.target_amount)
  saved_amount ← on_error (wrapped "scan goal") (numeric_column goal.saved_amount)
  required_monthly ← on_error (wrapped "scan goal") (numeric_column goal.required_monthly)
  id ← new_uuid
  created_at ← now
  let row : GoalRow = record {
    id = id;
    user_id = goal.user_id;
    name = goal.name;
    emoji = goal.emoji;
    goal_type = goal.goal_type;
    target_amount = target_amount;
    currency = goal.currency;
    saved_amount = saved_amount;
    required_monthly = required_monthly;
    deadline = to_date goal.deadline;
    priority = goal.priority;
    is_completed = goal.is_completed;
    created_at = created_at;
  }
  modify (set_goals (λ rows. row ∷ rows))
  p ← platform
  pure (to_domain p row)

-- ORDER BY priority ASC, created_at DESC
abbrev more_urgent : GoalRow → GoalRow → Bool
more_urgent r s =
    ltb_ℤ r.priority s.priority || (leb_ℤ r.priority s.priority && ltb s.created_at r.created_at)

unfoldable pub list_by_user : Uuid → M (List Goal)
list_by_user user_id = do
  on_error (wrapped "list goals by user") call
  rows ← gets (λ d. select (λ r. r.user_id == user_id) d.goals)
  p ← platform
  pure (map (to_domain p) (order_by more_urgent rows))

unfoldable pub find_by_id : Uuid → Uuid → M Goal
find_by_id user_id goal_id = do
  on_error (wrapped "scan goal") call
  found ← gets (λ d. find (owned user_id goal_id) d.goals)
  row ← or_raise found no_rows_error
  p ← platform
  pure (to_domain p row)

-- Everything but the saved amount.
unfoldable pub update_goal : Goal → M (Unit {0})
unfolding numeric_column exists
update_goal goal = do
  on_error (wrapped "update goal") call
  target_amount ← on_error (wrapped "update goal") (numeric_column goal.target_amount)
  required_monthly ← on_error (wrapped "update goal") (numeric_column goal.required_monthly)
  affected ← gets (λ d. exists (owned goal.user_id goal.id) d.goals)
  modify (
      set_goals (
        update (owned goal.user_id goal.id) (λ r. record r {
          name = goal.name;
          emoji = goal.emoji;
          goal_type = goal.goal_type;
          target_amount = target_amount;
          currency = goal.currency;
          required_monthly = required_monthly;
          deadline = to_date goal.deadline;
          priority = goal.priority;
          is_completed = goal.is_completed;
        })))
  raise_if (not affected) no_rows_error

unfoldable pub update_saved_amount : Uuid → Uuid → String → M (Unit {0})
unfolding numeric_column exists
update_saved_amount user_id goal_id saved_amount = do
  on_error (wrapped "update goal saved amount") call
  v ← on_error (wrapped "update goal saved amount") (numeric_column saved_amount)
  affected ← gets (λ d. exists (owned user_id goal_id) d.goals)
  modify (set_goals (update (owned user_id goal_id) (λ r. record r { saved_amount = v })))
  raise_if (not affected) no_rows_error

-- Deleting a goal deletes its contributions too (ON DELETE CASCADE).
unfoldable pub delete : Uuid → Uuid → M (Unit {0})
unfolding exists select
delete user_id goal_id = do
  on_error (wrapped "delete goal") call
  affected ← gets (λ d. exists (owned user_id goal_id) d.goals)
  modify (λ d. record d {
    goals = select (λ r. not (owned user_id goal_id r)) d.goals;
    contributions =
        if affected
        then select (λ c. not (c.goal_id == goal_id)) d.contributions
        else d.contributions;
  })
  raise_if (not affected) no_rows_error

unfoldable pub create_contribution : GoalContribution → M (Unit {0})
unfolding numeric_column
create_contribution c = do
  on_error (wrapped "scan goal contribution") call
  amount ← on_error (wrapped "scan goal contribution") (numeric_column c.amount)
  id ← new_uuid
  let row : ContributionRow = record {
    id = id;
    goal_id = c.goal_id;
    amount = amount;
    currency = c.currency;
    notes = c.notes;
    contributed_at = c.contributed_at;
  }
  modify (λ d. record d { contributions = row ∷ d.contributions })
