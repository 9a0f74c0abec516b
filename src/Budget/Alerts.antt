-- ===== src/Budget/Alerts.antt =====
-- The events of a budget's check.
use mali.Prelude.{
  ℕ, zero, suc, ◌⊎◌, ◌≤◌, ◌≡◌, refl, sym, ap, ◌∙◌, true, List, [], ◌∷◌, ◌++◌, ◌&&◌, false, inl, inr,
  arith,
}
use mathlib.Core.List.{append-nil, append_assoc}
use mali.Prelude.Tests.{Bool-cases, ltb, leb}
use mali.Prelude.Lists.{select}
use mali.Context.{ExceededEvent, ok, Platform, World, ◌>>=◌}
use mali.Context.Success.{result_cases, bind_ok}
use mali.Budget.Service.{
  event_at, BudgetService, GetBudgetStatusInput, BudgetStatus, crossed, emit_event, emit_threshold,
  emit_budget_exceeded, emit_thresholds, emit_budget_exceeded_if_crossed, last_emitted_threshold,
  set_emitted_threshold,
}

abbrev pub thresholds : List ExceededEvent → List ℕ
thresholds [] = []
thresholds (e ∷ es) = e.threshold ∷ thresholds es

thresholds-append :
    (es fs : List ExceededEvent) → thresholds (es ++ fs) ≡ thresholds es ++ thresholds fs
thresholds-append [] fs = refl
thresholds-append (e ∷ es) fs = rw (thresholds-append es fs) refl

module _ (input : GetBudgetStatusInput) (status : BudgetStatus) (previous current : ℕ)
    (p : Platform) where
  emit_event_lem :
      (t : ℕ) (w : World)
      → (emit_event input status previous current t p w).0 ≡ ok tt
      → thresholds (emit_event input status previous current t p w).1.exceeded
        ≡ thresholds w.exceeded ++ t ∷ []
  unfolding emit_event emit_budget_exceeded ◌>>=◌
  emit_event_lem t w h = ground (
    arith,
    thresholds-append w.exceeded (event_at input status previous current t (p.clock w.ticks) ∷ []),
  )

  emit_threshold_lem :
      (t : ℕ) (w : World)
      → (emit_threshold input status previous current t p w).0 ≡ ok tt
      → thresholds (emit_threshold input status previous current t p w).1.exceeded
        ≡ thresholds w.exceeded ++ select (crossed input status previous current) (t ∷ [])
  unfolding emit_threshold select ◌>>=◌
  emit_threshold_lem t w h = elim (Bool-cases (crossed input status previous current t)) [
    | inl y ↦ ground (arith, emit_event_lem t w, append-nil (thresholds w.exceeded))
    | inr n ↦ ground (arith, append-nil (thresholds w.exceeded))
  ]

  select-cons :
      (t : ℕ) (ts : List ℕ)
      → select (crossed input status previous current) (t ∷ ts)
        ≡ select (crossed input status previous current) (t ∷ [])
          ++ select (crossed input status previous current) ts
  unfolding select
  select-cons t ts = ground arith

  select-nil : (es : List ℕ) → es ≡ es ++ select (crossed input status previous current) []
  unfolding select
  select-nil es = sym (append-nil es)

  -- The thresholds that are sent.
  emit_thresholds_lem :
      (ts : List ℕ) (w : World)
      → (emit_thresholds input status previous current ts p w).0 ≡ ok tt
      → thresholds (emit_thresholds input status previous current ts p w).1.exceeded
        ≡ thresholds w.exceeded ++ select (crossed input status previous current) ts
  unfolding emit_thresholds
  emit_thresholds_lem [] w h = select-nil (thresholds w.exceeded)
  emit_thresholds_lem (t ∷ ts) w h =
      let (_, a, b, c) =
        bind_ok (emit_threshold input status previous current t)
          (λ _. emit_thresholds input status previous current ts) p w tt h in
      let w₁ = (emit_threshold input status previous current t p w).1 in
      rw c (
        emit_thresholds_lem ts w₁ b
        ∙ ap (λ es. es ++ select (crossed input status previous current) ts)
            (emit_threshold_lem t w a)
        ∙ append_assoc (thresholds w.exceeded) _ _
        ∙ ap (λ es. thresholds w.exceeded ++ es) (sym (select-cons t ts)))

-- Nothing is sent between equal thresholds, or down.
not_crossed :
    (input : GetBudgetStatusInput) (status : BudgetStatus) (previous current : ℕ) (p : Platform)
    (w : World)
    → current ≤ previous
    → (ts : List ℕ) → (emit_thresholds input status previous current ts p w).1 ≡ w
unfolding emit_thresholds emit_threshold ◌>>=◌
not_crossed input status previous current p w h [] = refl
not_crossed input status previous current p w h (t ∷ ts) =
    ground (arith, not_crossed input status previous current p w h ts)

module _ (s : BudgetService) (input : GetBudgetStatusInput) (status : BudgetStatus) (current : ℕ)
    (p : Platform) (w : World) where
  abbrev before : ℕ
  before = w.emitted status.budget.id input.month input.year

  abbrev sent : World
  sent = (emit_thresholds input status before current (80 ∷ 100 ∷ []) p w).1

  module _ (set : s.has_emitter ≡ true) (positive : 1 ≤ current)
      (h : (emit_budget_exceeded_if_crossed s input status current p w).0 ≡ ok tt) where
    emit-ok : (emit_thresholds input status before current (80 ∷ 100 ∷ []) p w).0 ≡ ok tt
    unfolding emit_budget_exceeded_if_crossed last_emitted_threshold set_emitted_threshold ◌>>=◌
    emit-ok =
        elim (result_cases (emit_thresholds input status before current (80 ∷ 100 ∷ []) p w).0) [
          | inl (_, l) ↦ l
          | inr (_, l) ↦ absurd (ground arith)
        ]

    emit-exceeded :
        (emit_budget_exceeded_if_crossed s input status current p w).1.exceeded ≡ sent.exceeded
    unfolding emit_budget_exceeded_if_crossed last_emitted_threshold set_emitted_threshold ◌>>=◌
    emit-exceeded = let l = emit-ok in ground arith

    emit-emitted :
        (emit_budget_exceeded_if_crossed s input status current p w).1.emitted status.budget.id
          input.month input.year
        ≡ current
    unfolding emit_budget_exceeded_if_crossed last_emitted_threshold set_emitted_threshold ◌>>=◌
    emit-emitted = let l = emit-ok in ground arith

-- A check that succeeds with a threshold, an emitter being set, sends those of 80 and 100, in this order,
-- that are above the remembered threshold and not above the new one, and then remembers the new one.
pub emit_budget_exceeded_if_crossed_lem :
    (s : BudgetService) (input : GetBudgetStatusInput) (status : BudgetStatus) (current : ℕ)
    (p : Platform) (w : World)
    → s.has_emitter ≡ true
    → 1 ≤ current
    → let w' = (emit_budget_exceeded_if_crossed s input status current p w).1 in
      let previous = w.emitted status.budget.id input.month input.year in
      (emit_budget_exceeded_if_crossed s input status current p w).0 ≡ ok tt
      → (thresholds w'.exceeded
          ≡ thresholds w.exceeded ++ select (λ t. ltb previous t && leb t current) (80 ∷ 100 ∷ []))
        × (w'.emitted status.budget.id input.month input.year ≡ current)
emit_budget_exceeded_if_crossed_lem s input status current p w set positive h = (
  ap thresholds (emit-exceeded s input status current p w set positive h)
      ∙ emit_thresholds_lem input status (before s input status current p w) current p
          (80 ∷ 100 ∷ []) w (emit-ok s input status current p w set positive h),
  emit-emitted s input status current p w set positive h,
)

quiet :
    (s : BudgetService) (input : GetBudgetStatusInput) (status : BudgetStatus) (current : ℕ)
    (p : Platform) (w : World)
    → current ≤ w.emitted status.budget.id input.month input.year
    → (emit_budget_exceeded_if_crossed s input status current p w).1.exceeded ≡ w.exceeded
unfolding emit_budget_exceeded_if_crossed last_emitted_threshold set_emitted_threshold ◌>>=◌
quiet s input status current p w h =
    let k =
      not_crossed input status (w.emitted status.budget.id input.month input.year) current p w h
        (80 ∷ 100 ∷ []) in
    ground arith

idle :
    (s : BudgetService) (input : GetBudgetStatusInput) (status : BudgetStatus) (current : ℕ)
    (p : Platform) (w : World)
    → (s.has_emitter ≡ false) ⊎ (current ≡ 0)
    → (emit_budget_exceeded_if_crossed s input status current p w).1.exceeded ≡ w.exceeded
unfolding emit_budget_exceeded_if_crossed ◌>>=◌
idle s input status current p w (inl h) = ground arith
idle s input status current p w (inr h) = ground arith

-- While the spending does not cross a higher threshold, checking a budget again after a check that
-- succeeded sends nothing, for the same month, and whatever the outside answers then.
pub emit_budget_exceeded_if_crossed-again :
    (s : BudgetService) (input : GetBudgetStatusInput) (first second : BudgetStatus) (high low : ℕ)
    (p q : Platform) (w : World)
    → second.budget.id ≡ first.budget.id
    → low ≤ high
    → let w' = (emit_budget_exceeded_if_crossed s input first high p w).1 in
      (emit_budget_exceeded_if_crossed s input first high p w).0 ≡ ok tt
      → (emit_budget_exceeded_if_crossed s input second low q w').1.exceeded ≡ w'.exceeded
emit_budget_exceeded_if_crossed-again s input first second zero low p q w same le h =
    idle s input second low q _ (inr (omega arith))
emit_budget_exceeded_if_crossed-again s input first second (suc n) low p q w same le h =
    elim (Bool-cases s.has_emitter) [
      | inl set ↦
          let e =
            (emit_budget_exceeded_if_crossed_lem s input first (suc n) p w set (omega arith) h).1 in
          quiet s input second low q _ (ground (arith, same, e))
      | inr off ↦ idle s input second low q _ (inl off)
    ]
