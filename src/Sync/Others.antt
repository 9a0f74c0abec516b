-- ===== src/Sync/Others.antt =====
-- What a user's request leaves alone: the other users' transactions, goals and budgets, and the tables
-- that it does not write.
use mali.Prelude.{◌≡◌, refl, Bool, true, false, List, [], ◌∷◌, arith}
use mali.Prelude.Tests.{◌==◌, not}
use mali.Prelude.Lists.{select, update}
use mali.Wallet.Repo.{set_wallets}
use mali.Transaction.Repo.{set_transactions}
use mali.Goal.Repo.{set_goals}
use mali.Budget.Repo.{set_budgets}
use mali.Domain.{Uuid, User, RefreshToken, Category}
use mali.Store.{
  WalletRow, ContributionRow, TransactionRow, GoalRow, BudgetRow, RateRow, SyncLogRow, Db,
}

module _ {R : Type 0} (other : R → Bool) where
  select-update :
      (p : R → Bool) (f : R → R) (rows : List R)
      → ((r : R) → p r ≡ true → other r ≡ false)
      → ((r : R) → other (f r) ≡ other r)
      → select other (update p f rows) ≡ select other rows
  unfolding select update
  select-update p f [] h k = refl
  select-update p f (r ∷ rows) h k = ground (arith, h r, k r, select-update p f rows h k)

  select-select :
      (p : R → Bool) (rows : List R)
      → ((r : R) → p r ≡ false → other r ≡ false)
      → select other (select p rows) ≡ select other rows
  unfolding select
  select-select p [] h = refl
  select-select p (r ∷ rows) h = ground (arith, h r, select-select p rows h)

  select-skip :
      (r : R) (rows : List R) → other r ≡ false → select other (r ∷ rows) ≡ select other rows
  unfolding select
  select-skip r rows h = ground (arith, h)

pub record Untouched : Type 0 where
  pub transactions : List TransactionRow
  pub goals : List GoalRow
  pub budgets : List BudgetRow
  pub users : List User
  pub refresh_tokens : List RefreshToken
  pub rates : List RateRow
  pub categories : List Category
  pub sync_log : List SyncLogRow

unfoldable pub others : Uuid → Db → Untouched
unfolding select
others u d = record {
  transactions = select (λ r. not (r.user_id == u)) d.transactions;
  goals = select (λ r. not (r.user_id == u)) d.goals;
  budgets = select (λ r. not (r.user_id == u)) d.budgets;
  users = d.users;
  refresh_tokens = d.refresh_tokens;
  rates = d.rates;
  categories = d.categories;
  sync_log = d.sync_log;
}

module _ (u : Uuid) (d : Db) where
  pub others-wallets :
      (f : List WalletRow → List WalletRow) → others u (set_wallets f d) ≡ others u d
  unfolding others
  others-wallets f = refl

  pub others-new_transaction :
      (r : TransactionRow)
      → r.user_id ≡ u
      → others u (set_transactions (λ rows. r ∷ rows) d) ≡ others u d
  unfolding others
  others-new_transaction r h =
      rw (select-skip (λ x. not (x.user_id == u)) r d.transactions (ground arith)) refl

  pub others-update_transactions :
      (p : TransactionRow → Bool) (f : TransactionRow → TransactionRow)
      → ((r : TransactionRow) → p r ≡ true → r.user_id ≡ u)
      → ((r : TransactionRow) → (f r).user_id ≡ r.user_id)
      → others u (set_transactions (update p f) d) ≡ others u d
  unfolding others
  others-update_transactions p f h k =
      rw
        (select-update (λ x. not (x.user_id == u)) p f d.transactions (λ r q. ground (arith, h r q))
          (λ r. rw (k r) refl))
        refl

  pub others-new_goal :
      (r : GoalRow) → r.user_id ≡ u → others u (set_goals (λ rows. r ∷ rows) d) ≡ others u d
  unfolding others
  others-new_goal r h = rw (select-skip (λ x. not (x.user_id == u)) r d.goals (ground arith)) refl

  pub others-update_goals :
      (p : GoalRow → Bool) (f : GoalRow → GoalRow)
      → ((r : GoalRow) → p r ≡ true → r.user_id ≡ u)
      → ((r : GoalRow) → (f r).user_id ≡ r.user_id)
      → others u (set_goals (update p f) d) ≡ others u d
  unfolding others
  others-update_goals p f h k =
      rw
        (select-update (λ x. not (x.user_id == u)) p f d.goals (λ r q. ground (arith, h r q))
          (λ r. rw (k r) refl))
        refl

  pub others-delete_goals :
      (p : GoalRow → Bool) (cs : List ContributionRow)
      → ((r : GoalRow) → p r ≡ false → r.user_id ≡ u)
      → others u (record d { goals = select p d.goals; contributions = cs }) ≡ others u d
  unfolding others
  others-delete_goals p cs h =
      rw (select-select (λ x. not (x.user_id == u)) p d.goals (λ r q. ground (arith, h r q))) refl

  pub others-new_budget :
      (r : BudgetRow) → r.user_id ≡ u → others u (set_budgets (λ rows. r ∷ rows) d) ≡ others u d
  unfolding others
  others-new_budget r h =
      rw (select-skip (λ x. not (x.user_id == u)) r d.budgets (ground arith)) refl

  pub others-update_budgets :
      (p : BudgetRow → Bool) (f : BudgetRow → BudgetRow)
      → ((r : BudgetRow) → p r ≡ true → r.user_id ≡ u)
      → ((r : BudgetRow) → (f r).user_id ≡ r.user_id)
      → others u (set_budgets (update p f) d) ≡ others u d
  unfolding others
  others-update_budgets p f h k =
      rw
        (select-update (λ x. not (x.user_id == u)) p f d.budgets (λ r q. ground (arith, h r q))
          (λ r. rw (k r) refl))
        refl
