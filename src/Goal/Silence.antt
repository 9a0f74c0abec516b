-- ===== src/Goal/Silence.antt =====
-- A contribution reaches no milestone: the progress before it and after it are read through one pointer.
use mali.Prelude.{ℕ, ◌≡◌, Bool, false, Option, none, some, List, [], ◌∷◌, ◌&&◌, String, arith}
use mali.Rat.{Rat, of_ℕ, lt, le}
use mali.Time.{Time}
use mali.Domain.{Uuid, Goal, GoalContribution}
use mali.Context.{Platform, World}
use mali.Context.Silent.{IsSilent, silent_rules, IsSilent-bind, IsSilent-pure}
use mali.Wallet.Repo.{to_column}
use mali.Goal.Months.{Heap, Pointer}
use mali.Goal.Repo
use mali.Goal.Milestones.{emit_if_reached, emit_reached, emit_milestones}
use mali.Goal.Service.{GoalService, ContributeGoalInput, parse_or}
use mali.Goal.Contribute.{contribute, refresh_for, refresh_monthly, time_or_now}

-- No amount is below a threshold and not below it.
lt-le-false : (x y : Rat) → (lt x y && le y x) ≡ false
lt-le-false x y = ground arith

module _ (goal : Goal) (x : Rat) (t : Time) where
  emit_if_reached-IsSilent : (n : ℕ) → IsSilent (emit_if_reached goal x x t n)
  unfolding emit_if_reached
  emit_if_reached-IsSilent n = rw (lt-le-false x (of_ℕ n)) (IsSilent-pure tt)

  emit_reached-IsSilent : (ns : List ℕ) → IsSilent (emit_reached goal x x t ns)
  unfolding emit_reached
  emit_reached-IsSilent [] = IsSilent-pure tt
  emit_reached-IsSilent (n ∷ ns) =
      IsSilent-bind _ _ (emit_if_reached-IsSilent n) (λ _. emit_reached-IsSilent ns)

emit_milestones-IsSilent :
    (b : Bool) (goal : Goal) (h : Heap) (saved target : Pointer) (t : Time)
    → IsSilent (emit_milestones b goal h saved saved target t)
unfolding emit_milestones
emit_milestones-IsSilent b goal h saved target t = search (silent_rules, emit_reached-IsSilent)

to_column-IsSilent : (n : ℕ) (x : Rat) → IsSilent (to_column n x)
unfolding to_column
to_column-IsSilent n x = search silent_rules

numeric_column-IsSilent : (text : String) → IsSilent (Repo.numeric_column text)
unfolding Repo.numeric_column
numeric_column-IsSilent text = search (silent_rules, to_column-IsSilent)

find_by_id-IsSilent : (u i : Uuid) → IsSilent (Repo.find_by_id u i)
unfolding Repo.find_by_id
find_by_id-IsSilent u i = search silent_rules depth 9

create_contribution-IsSilent : (c : GoalContribution) → IsSilent (Repo.create_contribution c)
unfolding Repo.create_contribution
create_contribution-IsSilent c = search (silent_rules, numeric_column-IsSilent) depth 12

update_saved_amount-IsSilent :
    (u i : Uuid) (text : String) → IsSilent (Repo.update_saved_amount u i text)
unfolding Repo.update_saved_amount
update_saved_amount-IsSilent u i text = search (silent_rules, numeric_column-IsSilent) depth 12

update_goal-IsSilent : (g : Goal) → IsSilent (Repo.update_goal g)
unfolding Repo.update_goal
update_goal-IsSilent g = search (silent_rules, numeric_column-IsSilent) depth 12

refresh_for-IsSilent : (h : Heap) (goal : Goal) (o : Option Time) → IsSilent (refresh_for h goal o)
unfolding refresh_for
refresh_for-IsSilent h goal none = search silent_rules
refresh_for-IsSilent h goal (some t) = search (silent_rules, update_goal-IsSilent) depth 12

refresh_monthly-IsSilent : (h : Heap) (goal : Goal) → IsSilent (refresh_monthly h goal)
unfolding refresh_monthly
refresh_monthly-IsSilent h goal = refresh_for-IsSilent h goal goal.deadline

time_or_now-IsSilent : (t : Time) → IsSilent (time_or_now t)
unfolding time_or_now
time_or_now-IsSilent t = search silent_rules

parse_or-IsSilent : (text value : String) → IsSilent (parse_or text value)
parse_or-IsSilent text value = search silent_rules

contribute-IsSilent :
    (s : GoalService) (input : ContributeGoalInput) → IsSilent (contribute s input)
unfolding contribute
contribute-IsSilent s input =
    search
      (
        silent_rules, find_by_id-IsSilent, create_contribution-IsSilent,
        update_saved_amount-IsSilent, refresh_monthly-IsSilent, time_or_now-IsSilent,
        emit_milestones-IsSilent,
      )
      depth 24

-- However far a contribution carries a goal, and although an emitter is set, no milestone event is sent.
pub milestones-contribute :
    (s : GoalService) (input : ContributeGoalInput) (p : Platform) (w : World)
    → (contribute s input p w).1.milestones ≡ w.milestones
milestones-contribute s input = (contribute-IsSilent s input).at
