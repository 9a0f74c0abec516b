-- ===== src/Goal/Months.antt =====
-- The months that are left until a deadline, and the amount to save in each (usecase/goal_service.go).
--
-- `*big.Rat` values are mutated in place, and two pointers may name one value: a heap maps each pointer
-- to its value, and each method writes its receiver.
use mali.Prelude.{ℕ, ◌+◌, ◌*◌, ◌/◌, ◌≡◌, refl, Bool, ◌&&◌}
use mali.Prelude.Tests.{ltb, ◌==◌, if◌then◌else◌, not}
use mali.Prelude.Int.{pos, pos_part, sub_ℕ, ltb_ℤ}
use mali.Rat.{Rat, of_ℕ, sub, quo, is_negative, is_positive}
use mali.Time.{Time, day, after, Date, date}
use mali.Context.{Result, ok, err, invalid}

unfoldable pub normalize_date : Time → Time
normalize_date t = t / day * day

abbrev pub month_count : Date → ℕ
month_count d = d.year * 12 + d.month

-- One more month is begun when the day of the month is past.
abbrev pub begun : Date → Date → ℕ
begun from to = if ltb from.day_of_month to.day_of_month then 1 else 0

unfoldable pub months_between : Date → Date → ℕ
months_between from to =
    let months = sub_ℕ (month_count to + begun from to) (month_count from) in
    if ltb_ℤ months (pos 1) then 1 else pos_part months

unfoldable pub months_until : Time → Time → ℕ
unfolding months_between
months_until from to = months_between (date from) (date to)

abbrev pub Pointer : Type 0
Pointer = ℕ

abbrev pub Heap : Type 0
Heap = Pointer → Rat

abbrev pub write : Heap → Pointer → Rat → Heap
write h z x q = if z == q then x else h q

-- `remaining := targetAmount.Sub(targetAmount, savedAmount)`
abbrev pub subtracted : Heap → Pointer → Pointer → Heap
subtracted h target saved = write h target (sub (h target) (h saved))

-- `if remaining.Sign() < 0 { remaining.SetInt64(0) }`
abbrev pub clip : Heap → Pointer → Heap
clip h remaining = if is_negative (h remaining) then write h remaining (of_ℕ 0) else h

-- `remaining.Quo(remaining, parseIntToRat(monthsRemaining))`
abbrev pub divided : Heap → Pointer → ℕ → Heap
divided h remaining months = write h remaining (quo (h remaining) (of_ℕ months))

abbrev pub is_zero_rat : Rat → Bool
is_zero_rat x = not (is_negative x) && not (is_positive x)

-- The pointer to the result, whether nothing remains, and the heap. The subtraction and the division
-- both write the target.
unfoldable pub compute_required_monthly :
    Heap → Pointer → Pointer → Time → Time → Result (Pointer × Bool × Heap)
compute_required_monthly h target saved today deadline =
    let months = months_until today deadline in
    let h' = divided (clip (subtracted h target saved) target) target months in
    if not (after deadline today)
    then err (invalid "deadline must be a future date")
    else if months == 0
    then err (invalid "deadline must be a future date")
    else ok (target, is_zero_rat (h' target), h')

-- From the 31st of January to the 1st of March there are two months begun: February and March.
few_months :
    months_between
      (record { year = 2026; month = 1; day_of_month = 31 })
      (record { year = 2026; month = 3; day_of_month = 1 })
    ≡ 2
unfolding months_between
few_months = refl
