-- ===== src/Budget/Keys.antt =====
-- One budget for each category and month of a user.
use mali.Prelude.{ℕ, ◌+◌, ◌≡◌, refl, sym, subst, none, some, List, [], ◌∷◌, inl, inr, arith}
use mali.Prelude.Tests.{not, Option-cases}
use mali.Prelude.Int.{ℤ}
use mali.Prelude.Lists.{find, find_passes, select, update}
use mali.Rat.{Rat}
use mali.Domain.{Uuid, Budget}
use mali.Store.{BudgetRow}
use mali.Context.{ok, Platform, World, ◌>>=◌}
use mali.Amount.{normalize_currency_code, normalize_amount}
use mali.Budget.Repo
use mali.Budget.Repo.{to_domain, keyed, same_key, overwritten}
use mali.Budget.Service.{BudgetService, UpsertBudgetInput, upsert_budget}

-- The constraint `UNIQUE(user_id, category_id, month, year)`.
abbrev pub UniqueKeys : List BudgetRow → Type 0
UniqueKeys [] = Unit
UniqueKeys (r ∷ rs) =
    (find (keyed r.user_id r.category_id r.month r.year) rs ≡ none) × UniqueKeys rs

module _ (b : Budget) (amount : ℤ) where
  find-update-none :
      (u c : Uuid) (m y : ℕ) (rs : List BudgetRow)
      → find (keyed u c m y) rs ≡ none
      → find (keyed u c m y) (update (same_key b) (overwritten b amount) rs) ≡ none
  unfolding find update
  find-update-none u c m y [] h = refl
  find-update-none u c m y (r ∷ rs) h = ground (arith, find-update-none u c m y rs)

  UniqueKeys-update :
      (rs : List BudgetRow)
      → UniqueKeys rs
      → UniqueKeys (update (same_key b) (overwritten b amount) rs)
  unfolding update
  UniqueKeys-update [] h = tt
  UniqueKeys-update (r ∷ rs) h =
      ground (
        arith,
        find-update-none r.user_id r.category_id r.month r.year rs,
        UniqueKeys-update rs h.1,
      )

  find-update-some :
      (rs : List BudgetRow) (r : BudgetRow)
      → find (same_key b) rs ≡ some r
      → find (same_key b) (update (same_key b) (overwritten b amount) rs)
        ≡ some (overwritten b amount r)
  unfolding find update
  find-update-some [] r h = cc
  find-update-some (x ∷ rs) r h = ground (arith, find-update-some rs r)

  store-UniqueKeys :
      (p : Platform) (w : World)
      → UniqueKeys w.db.budgets
      → UniqueKeys (Repo.store b amount (find (same_key b) w.db.budgets) p w).1.db.budgets
  unfolding Repo.store ◌>>=◌
  store-UniqueKeys p w uniq = elim (Option-cases (find (same_key b) w.db.budgets)) [
    | inl absent ↦ rw (absent, Repo.store) (absent, uniq)
    | inr (r, e) ↦ rw (e, Repo.store) (UniqueKeys-update w.db.budgets uniq)
  ]

  -- The row that is written, and what happens to the others.
  pub record IsStored (row : BudgetRow) (old new : List BudgetRow) : Type 0 where
    pub found : find (same_key b) new ≡ some row
    pub owner : row.user_id ≡ b.user_id
    pub category : row.category_id ≡ b.category_id
    pub period : (row.month ≡ b.month) × (row.year ≡ b.year)
    pub written : row.amount ≡ amount
    pub currency : row.currency ≡ b.currency
    pub rollover : row.rollover ≡ b.rollover
    pub rest : select (λ r. not (same_key b r)) new ≡ select (λ r. not (same_key b r)) old

  find-keyed :
      (rs : List BudgetRow) (r : BudgetRow)
      → find (same_key b) rs ≡ some r
      → (r.user_id ≡ b.user_id)
        × (r.category_id ≡ b.category_id)
        × (r.month ≡ b.month)
        × (r.year ≡ b.year)
  find-keyed rs r h = let k = find_passes (same_key b) rs r h in ground arith

  select-update :
      (rs : List BudgetRow)
      → select (λ r. not (same_key b r)) (update (same_key b) (overwritten b amount) rs)
        ≡ select (λ r. not (same_key b r)) rs
  unfolding select update
  select-update [] = refl
  select-update (r ∷ rs) = ground (arith, select-update rs)

  store-IsStored :
      (p : Platform) (w : World)
      → let o = Repo.store b amount (find (same_key b) w.db.budgets) p w in
        (r : BudgetRow) × IsStored r w.db.budgets o.1.db.budgets × (o.0 ≡ ok r)
  unfolding Repo.store ◌>>=◌ find select
  store-IsStored p w = elim (Option-cases (find (same_key b) w.db.budgets)) [
    | inl absent ↦
        rw (absent, Repo.store)
          (
            Repo.new_row b amount (p.uuid w.draws),
            record {
              found = ground arith;
              owner = refl;
              category = refl;
              period = (refl, refl);
              written = refl;
              currency = refl;
              rollover = refl;
              rest = ground arith;
            },
            refl,
          )
    | inr (r, e) ↦
        let (o, c, m, y) = find-keyed w.db.budgets r e in
        rw (e, Repo.store)
          (
            overwritten b amount r,
            record {
              found = find-update-some w.db.budgets r e;
              owner = o;
              category = c;
              period = (m, y);
              written = refl;
              currency = refl;
              rollover = refl;
              rest = select-update w.db.budgets;
            },
            refl,
          )
  ]

-- What setting a budget has stored: the number that its text stands for, as the column takes it.
pub record Upserted (b : Budget) (p : Platform) (c : Budget) (old new : List BudgetRow)
    : Type 0 where
  pub row : BudgetRow
  pub number : Rat
  pub amount : ℤ
  pub scanned : p.scan b.amount ≡ some number
  pub stored : p.column 4 number ≡ some amount
  pub in_table : IsStored b amount row old new
  pub answered : c ≡ to_domain p row

module _ (b : Budget) (p : Platform) (w : World) where
  upsert-UniqueKeys : UniqueKeys w.db.budgets → UniqueKeys (Repo.upsert b p w).1.db.budgets
  unfolding Repo.upsert ◌>>=◌
  upsert-UniqueKeys uniq = elim (Option-cases (p.scan b.amount)) [
    | inl unread ↦ ground arith
    | inr (x, e) ↦ elim (Option-cases (p.column 4 x)) [
      | inl large ↦ ground arith
      | inr (v, q) ↦ ground (arith, store-UniqueKeys b v p (record w { calls = w.calls + 1 }) uniq)
    ]
  ]

  upsert-Upserted :
      (c : Budget)
      → (Repo.upsert b p w).0 ≡ ok c
      → Upserted b p c w.db.budgets (Repo.upsert b p w).1.db.budgets
  unfolding Repo.upsert ◌>>=◌
  upsert-Upserted c h = elim (Option-cases (p.scan b.amount)) [
    | inl unread ↦ absurd (ground arith)
    | inr (x, e) ↦ elim (Option-cases (p.column 4 x)) [
      | inl large ↦ absurd (ground arith)
      | inr (v, q) ↦
          let w' : World = record w { calls = w.calls + 1 } in
          let (r, f, o) = store-IsStored b v p w' in
          let same : (Repo.upsert b p w).1.db.budgets
              ≡ (Repo.store b v (find (same_key b) w.db.budgets) p w').1.db.budgets =
            ground arith in
          record {
            row = r;
            number = x;
            amount = v;
            scanned = e;
            stored = q;
            in_table = subst (λ rows. IsStored b v r w.db.budgets rows) (sym same) f;
            answered = ground arith;
          }
    ]
  ]

abbrev pub requested : UpsertBudgetInput → Budget
requested input = record {
  id = 0;
  user_id = input.user_id;
  category_id = input.category_id;
  currency = normalize_currency_code input.currency;
  amount = normalize_amount input.amount;
  month = input.month;
  year = input.year;
  rollover = input.rollover;
}

-- Setting a budget keeps the keys of the table unique, whether or not it succeeds: it overwrites the
-- budget of the same category and month if there is one.
pub upsert_budget-UniqueKeys :
    (s : BudgetService) (input : UpsertBudgetInput) (p : Platform) (w : World)
    → UniqueKeys w.db.budgets
    → UniqueKeys (upsert_budget s input p w).1.db.budgets
unfolding upsert_budget ◌>>=◌
upsert_budget-UniqueKeys s input p w uniq =
    ground (arith, upsert-UniqueKeys (requested input) p w uniq)

module _ (s : BudgetService) (input : UpsertBudgetInput) (p : Platform) (w : World) (b : Budget)
    (h : (upsert_budget s input p w).0 ≡ ok b) where
  upsert_budget-upsert : (Repo.upsert (requested input) p w).0 ≡ ok b
  unfolding upsert_budget ◌>>=◌
  upsert_budget-upsert = ground arith

  upsert_budget-db : (upsert_budget s input p w).1.db ≡ (Repo.upsert (requested input) p w).1.db
  unfolding upsert_budget ◌>>=◌
  upsert_budget-db = ground arith

-- A budget that was set is the one that the table then has for the user, category and month of the request,
-- with the requested currency and rollover and the amount that was asked for, as its column takes it,
-- whether the row was there before or not; rows of other keys are as they were.
pub upsert_budget-Upserted :
    (s : BudgetService) (input : UpsertBudgetInput) (p : Platform) (w : World) (b : Budget)
    → (upsert_budget s input p w).0 ≡ ok b
    → Upserted (requested input) p b w.db.budgets (upsert_budget s input p w).1.db.budgets
upsert_budget-Upserted s input p w b h =
    rw (upsert_budget-db s input p w b h)
      (upsert-Upserted (requested input) p w b (upsert_budget-upsert s input p w b h))
