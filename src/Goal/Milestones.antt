-- ===== src/Goal/Milestones.antt =====
-- emitMilestones of usecase/goal_service.go.
use mali.Prelude.{ℕ, Bool, List, [], ◌∷◌, ◌&&◌, ◌||◌, ◌++◌}
use mali.Prelude.Tests.{if◌then◌else◌, not}
use mali.Rat.{Rat, of_ℕ, mul, quo, lt, le, is_positive}
use mali.Rat.Text.{float_string}
use mali.Time.{Time}
use mali.Domain.{Goal}
use mali.Context.{wrapped, MilestoneEvent, ok, M, pure, on_error, call, ◌>>=◌, ◌>>◌}
use mali.Goal.Months.{Heap, Pointer}

-- The emitter is another component: it may fail, and then has received nothing.
unfoldable pub emit_milestone : MilestoneEvent → M (Unit {0})
unfolding ◌>>=◌
emit_milestone event = call >> λ p w. (ok tt, record w { milestones = w.milestones ++ event ∷ [] })

-- A hundred times the part of the target that is saved.
unfoldable pub progress : Rat → Rat → Rat
progress saved target = quo (mul saved (of_ℕ 100)) target

module _ (goal : Goal) (before after : Rat) (occurred_at : Time) where
  -- One threshold: it counts when the progress was below it and no longer is.
  unfoldable pub emit_if_reached : ℕ → M (Unit {0})
  unfolding emit_milestone
  emit_if_reached threshold =
      if lt before (of_ℕ threshold) && le (of_ℕ threshold) after
      then on_error (wrapped "emit goal milestone reached") (
          emit_milestone (record {
            user_id = goal.user_id;
            goal_id = goal.id;
            milestone = threshold;
            saved_amount = goal.saved_amount;
            target_amount = goal.target_amount;
            progress = float_string 4 after;
            occurred_at = occurred_at;
          }))
      else pure tt

  unfoldable pub emit_reached : List ℕ → M (Unit {0})
  unfolding emit_if_reached
  emit_reached [] = pure tt
  emit_reached (threshold ∷ rest) = do emit_if_reached threshold; emit_reached rest

-- The pointers are read where the source reads them: when the progress is computed.
unfoldable pub emit_milestones :
    Bool → Goal → Heap → Pointer → Pointer → Pointer → Time → M (Unit {0})
unfolding emit_reached progress
emit_milestones has_emitter goal heap before_saved after_saved target_amount occurred_at =
    if not has_emitter || not (is_positive (heap target_amount))
    then pure tt
    else emit_reached goal (progress (heap before_saved) (heap target_amount))
        (progress (heap after_saved) (heap target_amount)) occurred_at (25 ∷ 50 ∷ 75 ∷ 100 ∷ [])
