-- ===== src/Sync/Isolation/Plans.antt =====
-- The operations on goals and budgets that a batch asks for leave alone what is not the user's.
use mali.Prelude.{
  ℕ, ◌≡◌, refl, subst, ◌∙◌, inl, inr, Bool, Option, none, some, List, [], ◌∷◌, arith, String,
}
use mali.Prelude.Tests.{◌==◌, not, Option-cases, if◌then◌else◌}
use mali.Prelude.Lists.{update, find, find_passes, select}
use mali.Domain.{Uuid, Goal, GoalContribution, Budget}
use mali.Prelude.Int.{ℤ}
use mali.Rat.{Rat}
use mali.Time.{Time}
use mali.Store.{Db, GoalRow, BudgetRow}
use mali.Context.{World, Platform, M, MilestoneEvent, call, ◌>>=◌, on_error, ok}
use mali.Context.Success.{result_cases}
use mali.Context.Views.{Keeps, view_rules, Keeps-bind, Keeps-call}
use mali.Goal.Months.{Heap, Pointer}
use mali.Goal.Repo as GoalRepo
use mali.Goal.Milestones.{emit_milestone, emit_if_reached, emit_reached, emit_milestones}
use mali.Goal.Service.{
  GoalService, CreateGoalInput, UpdateGoalInput, ContributeGoalInput, create_goal, update_goal,
  delete_goal, goal_lookup_error,
}
use mali.Goal.Contribute.{contribute, refresh_for, refresh_monthly, time_or_now}
use mali.Budget.Repo as BudgetRepo
use mali.Budget.Service.{BudgetService, UpsertBudgetInput, upsert_budget}
use mali.Sync.Others.{
  others, others-new_goal, others-update_goals, others-delete_goals, others-new_budget,
  others-update_budgets,
}
use mali.Sync.Isolation.Money.{to_column-Keeps, numeric_from_string-Keeps}

numeric_column-Keeps : (u : Uuid) (text : String) → Keeps (others u) (GoalRepo.numeric_column text)
unfolding GoalRepo.numeric_column
numeric_column-Keeps u text = search (view_rules, to_column-Keeps)

create-Keeps : (u : Uuid) (g : Goal) → g.user_id ≡ u → Keeps (others u) (GoalRepo.create g)
unfolding GoalRepo.create
create-Keeps u g h =
    subst (λ v. Keeps (others v) (GoalRepo.create g)) h
      (search (view_rules, numeric_column-Keeps, others-new_goal) depth 20)

pub create_goal-Keeps :
    (s : GoalService) (i : CreateGoalInput) → Keeps (others i.user_id) (create_goal s i)
unfolding create_goal
create_goal-Keeps s i = search (view_rules, create-Keeps) depth 24

module _ (u : Uuid) (g : Uuid) (f : GoalRow → GoalRow)
    (keep : (r : GoalRow) → (f r).user_id ≡ r.user_id) where
  ours : (d : Db) → others u (GoalRepo.set_goals (update (GoalRepo.owned u g) f) d) ≡ others u d
  ours d = others-update_goals u d _ _ (λ r h. ground arith) keep

repo_update-Keeps :
    (u : Uuid) (g : Goal) → g.user_id ≡ u → Keeps (others u) (GoalRepo.update_goal g)
unfolding GoalRepo.update_goal
repo_update-Keeps u g h =
    subst (λ v. Keeps (others v) (GoalRepo.update_goal g)) h
      (search (view_rules, numeric_column-Keeps, ours) depth 20)

update_saved_amount-Keeps :
    (u g : Uuid) (text : String) → Keeps (others u) (GoalRepo.update_saved_amount u g text)
unfolding GoalRepo.update_saved_amount
update_saved_amount-Keeps u g text = search (view_rules, numeric_column-Keeps, ours) depth 20

repo_find-Keeps : (u v g : Uuid) → Keeps (others u) (GoalRepo.find_by_id v g)
unfolding GoalRepo.find_by_id
repo_find-Keeps u v g = search view_rules depth 12

pub update_goal-Keeps :
    (s : GoalService) (i : UpdateGoalInput) → Keeps (others i.user_id) (update_goal s i)
unfolding update_goal
update_goal-Keeps s i = search (view_rules, repo_find-Keeps, repo_update-Keeps) depth 32

repo_delete-Keeps : (u g : Uuid) → Keeps (others u) (GoalRepo.delete u g)
unfolding GoalRepo.delete
repo_delete-Keeps u g = search (view_rules, gone) depth 20
  where
    gone :
        (affected : Bool) (d : Db)
        → others u (record d {
          goals = select (λ r. not (GoalRepo.owned u g r)) d.goals;
          contributions =
              if affected
              then select (λ c. not (c.goal_id == g)) d.contributions
              else d.contributions;
        })
          ≡ others u d
    gone affected d = others-delete_goals u d _ _ (λ r h. ground arith)

pub delete_goal-Keeps : (s : GoalService) (u g : Uuid) → Keeps (others u) (delete_goal s u g)
unfolding delete_goal
delete_goal-Keeps s u g = search (view_rules, repo_delete-Keeps) depth 12

create_contribution-Keeps :
    (u : Uuid) (c : GoalContribution) → Keeps (others u) (GoalRepo.create_contribution c)
unfolding GoalRepo.create_contribution others
create_contribution-Keeps u c = search (view_rules, numeric_column-Keeps) depth 20

emit_milestone-Keeps : (u : Uuid) (e : MilestoneEvent) → Keeps (others u) (emit_milestone e)
unfolding emit_milestone
emit_milestone-Keeps u e = Keeps-bind call _ Keeps-call (λ _. record { at = λ p w. refl })

module _ (u : Uuid) (goal : Goal) (x y : Rat) (t : Time) where
  emit_if_reached-Keeps : (n : ℕ) → Keeps (others u) (emit_if_reached goal x y t n)
  unfolding emit_if_reached
  emit_if_reached-Keeps n = search (view_rules, emit_milestone-Keeps)

  emit_reached-Keeps : (ns : List ℕ) → Keeps (others u) (emit_reached goal x y t ns)
  unfolding emit_reached
  emit_reached-Keeps [] = search view_rules
  emit_reached-Keeps (n ∷ ns) =
      Keeps-bind _ _ (emit_if_reached-Keeps n) (λ _. emit_reached-Keeps ns)

emit_milestones-Keeps :
    (u : Uuid) (b : Bool) (goal : Goal) (h : Heap) (x y z : Pointer) (t : Time)
    → Keeps (others u) (emit_milestones b goal h x y z t)
unfolding emit_milestones
emit_milestones-Keeps u b goal h x y z t = search (view_rules, emit_reached-Keeps)

refresh_for-Keeps :
    (u : Uuid) (h : Heap) (goal : Goal) (o : Option Time)
    → goal.user_id ≡ u
    → Keeps (others u) (refresh_for h goal o)
unfolding refresh_for
refresh_for-Keeps u h goal none e = search view_rules
refresh_for-Keeps u h goal (some t) e = search (view_rules, repo_update-Keeps) depth 16

refresh_monthly-Keeps :
    (u : Uuid) (h : Heap) (goal : Goal)
    → goal.user_id ≡ u
    → Keeps (others u) (refresh_monthly h goal)
unfolding refresh_monthly
refresh_monthly-Keeps u h goal e = refresh_for-Keeps u h goal goal.deadline e

time_or_now-Keeps : (u : Uuid) (t : Time) → Keeps (others u) (time_or_now t)
unfolding time_or_now
time_or_now-Keeps u t = search view_rules

found_goal :
    (u g : Uuid) (p : Platform) (w : World) (goal : Goal)
    → (GoalRepo.find_by_id u g p w).0 ≡ ok goal
    → goal.user_id ≡ u
unfolding GoalRepo.find_by_id find ◌>>=◌
found_goal u g p w goal h = elim (Option-cases (find (GoalRepo.owned u g) w.db.goals)) [
  | inl absent ↦ absurd (ground arith)
  | inr (r, e) ↦ ground (arith, find_passes (GoalRepo.owned u g) w.db.goals r e)
]

-- What follows a lookup may rely on whose goal it is.
find_goal-bind :
    {A : Type 0} (u g : Uuid) (f : Goal → M A)
    → ((goal : Goal) → goal.user_id ≡ u → Keeps (others u) (f goal))
    → Keeps
        (others u)
        (on_error (goal_lookup_error "find goal by id") (GoalRepo.find_by_id u g) >>= f)
unfolding ◌>>=◌
find_goal-bind u g f h = record {
  at = λ p w.
      let kept = (repo_find-Keeps u u g).at p w in
      elim (result_cases (GoalRepo.find_by_id u g p w).0) [
        | inl (goal, e) ↦ rw e ((h goal (found_goal u g p w goal e)).at p _ ∙ kept)
        | inr (x, e) ↦ rw e kept
      ];
}

pub contribute-Keeps :
    (s : GoalService) (i : ContributeGoalInput) → Keeps (others i.user_id) (contribute s i)
unfolding contribute
contribute-Keeps s i =
    search
      (
        find_goal-bind, view_rules, repo_find-Keeps, create_contribution-Keeps,
        update_saved_amount-Keeps, refresh_monthly-Keeps, time_or_now-Keeps, emit_milestones-Keeps,
      )
      depth 32

-- Budgets.
store-Keeps :
    (u : Uuid) (b : Budget) (x : ℤ) (o : Option BudgetRow)
    → b.user_id ≡ u
    → Keeps (others u) (BudgetRepo.store b x o)
unfolding BudgetRepo.store
store-Keeps u b x none h = search (view_rules, others-new_budget) depth 9
store-Keeps u b x (some r) h = search (view_rules, mine) depth 9
  where
    mine :
        (d : Db)
        → others u
            (BudgetRepo.set_budgets (update (BudgetRepo.same_key b) (BudgetRepo.overwritten b x)) d)
          ≡ others u d
    mine d = others-update_budgets u d _ _ (λ r q. ground arith) (λ r. refl)

upsert-Keeps : (u : Uuid) (b : Budget) → b.user_id ≡ u → Keeps (others u) (BudgetRepo.upsert b)
unfolding BudgetRepo.upsert
upsert-Keeps u b h =
    search (view_rules, to_column-Keeps, numeric_from_string-Keeps, store-Keeps) depth 12

pub upsert_budget-Keeps :
    (s : BudgetService) (i : UpsertBudgetInput) → Keeps (others i.user_id) (upsert_budget s i)
unfolding upsert_budget
upsert_budget-Keeps s i = search (view_rules, upsert-Keeps) depth 16
