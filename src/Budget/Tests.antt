-- ===== src/Budget/Tests.antt =====
-- Budgets on concrete inputs.
use mali.Prelude.{◌≡◌, refl, true, false, [], ◌∷◌, ◌++◌, arith, ◌&&◌}
use mali.Prelude.Tests.{ltb, leb}
use mali.Prelude.Int.{pos, ◌*ℤ◌, ◌-ℤ◌}
use mali.Prelude.Lists.{find, select}
use mali.Prelude.Text.{trim_space, to_upper}
use mali.Rat.{mul, sub, quo}
use mali.Rat.Text.{set_string, float_string}
use mali.Domain.{Budget}
use mali.Store.{BudgetRow}
use mali.Context.{ok, ◌>>=◌}
use mali.Sample.{steady, world, reads, round_column, render_column}
use mali.Budget.Repo
use mali.Budget.Repo.{to_domain, keyed}
use mali.Budget.Service.{
  BudgetService, UpsertBudgetInput, GetBudgetStatusInput, BudgetStatus, upsert_budget,
  emit_thresholds, compute_budget_status, emit_budget_exceeded_if_crossed, last_emitted_threshold,
  set_emitted_threshold,
}
use mali.Budget.Keys.{
  UniqueKeys, upsert_budget-UniqueKeys, Upserted, requested, upsert_budget-Upserted,
}
use mali.Budget.Alerts.{
  thresholds, emit_budget_exceeded_if_crossed_lem, emit_budget_exceeded_if_crossed-again,
}

abbrev service : BudgetService
service = record { has_repository = true; has_emitter = true }

abbrev food : UpsertBudgetInput
food = record {
  user_id = 1;
  category_id = 5;
  currency = "usd";
  amount = "200";
  month = 1;
  year = 2026;
  rollover = false;
}

upsert_budget-UniqueKeys_example : UniqueKeys (upsert_budget service food steady world).1.db.budgets
upsert_budget-UniqueKeys_example = upsert_budget-UniqueKeys service food steady world tt

abbrev food_row : BudgetRow
food_row = record {
  id = 1000;
  user_id = 1;
  category_id = 5;
  currency = "USD";
  amount = pos 2_000_000;
  month = 1;
  year = 2026;
  rollover = false;
}

food_set : (upsert_budget service food steady world).0 ≡ ok (to_domain steady food_row)
unfolding upsert_budget Repo.upsert ◌>>=◌ find trim_space to_upper set_string round_column
    render_column reads
food_set = refl

upsert_budget-Upserted_example :
    Upserted
      (requested food)
      steady
      (to_domain steady food_row)
      world.db.budgets
      (upsert_budget service food steady world).1.db.budgets
upsert_budget-Upserted_example =
    upsert_budget-Upserted service food steady world (to_domain steady food_row) food_set

abbrev january : GetBudgetStatusInput
january = record { user_id = 1; month = 1; year = 2026 }

abbrev food_budget : Budget
food_budget = to_domain steady food_row

abbrev food_status : BudgetStatus
food_status = record {
  budget = food_budget;
  spent = "250.0000";
  remaining = "-50.0000";
  percent_used = "125.0000";
}

-- 250 of 200 spent.
over : compute_budget_status food_budget "250" ≡ ok (food_status, 100)
unfolding compute_budget_status trim_space set_string float_string render_column mul sub quo ◌*ℤ◌
    ◌-ℤ◌
over = refl

sent : (emit_budget_exceeded_if_crossed service january food_status 100 steady world).0 ≡ ok tt
unfolding emit_budget_exceeded_if_crossed emit_thresholds last_emitted_threshold
    set_emitted_threshold ◌>>=◌
sent = refl

emit_budget_exceeded_if_crossed_lem_example :
    (thresholds
        (emit_budget_exceeded_if_crossed service january food_status 100 steady world).1.exceeded
      ≡ thresholds [] ++ select (λ t. ltb 0 t && leb t 100) (80 ∷ 100 ∷ []))
    × ((emit_budget_exceeded_if_crossed service january food_status 100 steady world).1.emitted 1000
          1 2026
        ≡ 100)
emit_budget_exceeded_if_crossed_lem_example =
    emit_budget_exceeded_if_crossed_lem service january food_status 100 steady world refl
      (omega arith) sent

emit_budget_exceeded_if_crossed-again_example :
    (emit_budget_exceeded_if_crossed service january food_status 80 steady
      (emit_budget_exceeded_if_crossed service january food_status 100 steady world).1).1.exceeded
    ≡ (emit_budget_exceeded_if_crossed service january food_status 100 steady world).1.exceeded
emit_budget_exceeded_if_crossed-again_example =
    emit_budget_exceeded_if_crossed-again service january food_status food_status 100 80 steady
      steady world refl (omega arith) sent
