-- ===== src/Goal/Tests.antt =====
-- Goals on concrete inputs.
use mali.Prelude.{List, ◌∷◌, ℕ, ◌+◌, ◌*◌, ◌≤◌, ◌≡◌, refl, true, []}
use mali.Prelude.Tests.{ltb, if◌then◌else◌}
use mali.Rat.{of_ℕ, add, mul, sub, quo}
use mali.Time.{date, day, after, Date, zero_time}
use mali.Goal.Milestones.{emit_milestones}
use mali.Prelude.Int.{ℤ, pos, ◌+ℤ◌, ◌*ℤ◌, ◌-ℤ◌}
use mali.Prelude.Lists.{find, update, exists}
use mali.Prelude.Text.{trim_space, to_upper}
use mali.Rat.Text.{set_string, float_string}
use mali.Store.{GoalRow}
use mali.Goal.Repo
use mali.Context.{◌>>=◌}
use mali.Sample.{reads, round_column, render_column, steady, world, today}
use mali.Goal.Months.{compute_required_monthly, months_until, Heap, months_between, normalize_date}
use mali.Goal.Service.{GoalService, ContributeGoalInput}
use mali.Goal.Contribute.{refresh_for, contribute}
use mali.Goal.Silence.{milestones-contribute}
use mali.Goal.Monthly.{
  Covers, Instalment, months_between_fewest, compute_required_monthly-Instalment,
}

abbrev service : GoalService
service = record { has_repository = true; has_emitter = true }

-- From 200 of 1000 to 900 of 1000.
abbrev gift : ContributeGoalInput
gift = record {
  user_id = 1;
  goal_id = 31;
  amount = "700";
  currency = "";
  notes = "";
  contributed_at = zero_time;
}

milestones-contribute_example : (contribute service gift steady world).1.milestones ≡ []
milestones-contribute_example = milestones-contribute service gift steady world

abbrev start : Date
start = record { year = 2026; month = 1; day_of_month = 31 }

abbrev end : Date
end = record { year = 2026; month = 3; day_of_month = 1 }

months_between_fewest_example :
    (1 ≤ months_between start end)
    × Covers start end (months_between start end)
    × ((k : ℕ) → 1 ≤ k → Covers start end k → months_between start end ≤ k)
months_between_fewest_example = months_between_fewest start end

-- 1000 at pointer 0, 200 elsewhere.
abbrev amounts : Heap
amounts q = if ltb q 1 then of_ℕ 1000 else of_ℕ 200

deadline_ahead : after (normalize_date (today + 200 * day)) (normalize_date today) ≡ true
unfolding normalize_date
deadline_ahead = refl

compute_required_monthly-Instalment_example :
    Instalment amounts 0 1 (normalize_date today) (normalize_date (today + 200 * day))
compute_required_monthly-Instalment_example =
    compute_required_monthly-Instalment amounts 0 1 (normalize_date today)
      (normalize_date (today + 200 * day)) deadline_ahead

saved_column : List GoalRow → List ℤ
saved_column [] = []
saved_column (r ∷ rs) = r.saved_amount ∷ saved_column rs

-- The contribution is stored, and carries the goal from 20 to 90 in the hundred.
gift_stored : saved_column (contribute service gift steady world).1.db.goals ≡ pos 9_000_000 ∷ []
unfolding saved_column contribute Repo.find_by_id Repo.create_contribution Repo.update_saved_amount
    Repo.update_goal Repo.numeric_column emit_milestones compute_required_monthly months_until
    normalize_date refresh_for ◌>>=◌ find exists update trim_space to_upper set_string float_string
    round_column render_column reads add sub quo date ◌+ℤ◌ ◌*ℤ◌ ◌-ℤ◌ months_between mul
gift_stored = refl
