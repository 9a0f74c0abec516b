-- ===== src/Goal/Monthly.antt =====
-- The months until a deadline, and what is to be saved in each of them.
use mali.Prelude.{
  ℕ, ◌+◌, ◌*◌, ◌≤◌, ◌<◌, ◌≡◌, ◌≢◌, ◌⊎◌, inl, inr, refl, ap, ◌∙◌, Bool, true, false, arith, ◌&&◌,
}
use mali.Prelude.Tests.{◌==◌, if◌then◌else◌, not, Bool-cases, ==_refl}
use mali.Prelude.Int.{ℤ, pos, negsuc, pos_part, neg_part, ◌-ℤ◌, ◌*ℤ◌, eq_of_parts, ltb_ℤ, leb_ℤ}
use mali.Rat.{Rat, of_ℕ, sub, quo, mul, le, is_negative, is_positive}
use mali.Time.{Time, after, Date, date}
use mali.Context.{ok}
use mali.Goal.Months.{
  clip, subtracted, divided, is_zero_rat, month_count, months_between, months_until, Heap, Pointer,
  write, compute_required_monthly,
}

-- `n` months after `from` are not before `to`: by the month, and in the same month by its day.
abbrev pub Covers : Date → Date → ℕ → Type 0
Covers from to n =
    (month_count to < month_count from + n)
    ⊎ ((month_count to ≡ month_count from + n) × (to.day_of_month ≤ from.day_of_month))

-- The months between two dates are the fewest, and at least one, that reach the second from the first.
pub months_between_fewest :
    (from to : Date)
    → (1 ≤ months_between from to)
      × Covers from to (months_between from to)
      × ((k : ℕ) → 1 ≤ k → Covers from to k → months_between from to ≤ k)
unfolding months_between
months_between_fewest from to = (ground arith, ground arith, λ k h c. ground arith)

*ℤ-pos :
    (a : ℤ) (n : ℕ)
    → (pos_part (a *ℤ pos n) ≡ pos_part a * n) × (neg_part (a *ℤ pos n) ≡ neg_part a * n)
unfolding ◌*ℤ◌
*ℤ-pos (pos k) n = ground arith
*ℤ-pos (negsuc k) n = ground arith

-- Two fractions of the same value.
infix 50 ◌≃◌
abbrev pub ◌≃◌ : Rat → Rat → Type 0
◌≃◌ x y = x.num *ℤ pos y.den ≡ y.num *ℤ pos x.den

-- What is still to be saved: nothing, once the target is reached.
abbrev pub remaining : Rat → Rat → Rat
remaining target saved = if le target saved then of_ℕ 0 else sub target saved

-- A division by a number of months, at least one, keeps the sign, and is undone by multiplication.
quo-months :
    (x : Rat) (n : ℕ) → quo x (of_ℕ n) ≡ record { num = x.num *ℤ pos 1; den = x.den * (n + 0) }
unfolding quo
quo-months x n = ground arith

*ℤ-pos-pos : (a : ℤ) (m n : ℕ) → a *ℤ pos m *ℤ pos n ≡ a *ℤ pos (m * n)
*ℤ-pos-pos a m n =
    let f = *ℤ-pos a m in
    let g = *ℤ-pos (a *ℤ pos m) n in
    let k = *ℤ-pos a (m * n) in eq_of_parts _ _ (rw (g.0, g.1, f.0, f.1, k.0, k.1) (omega arith))

mul-quo : (x : Rat) (n : ℕ) → mul (quo x (of_ℕ n)) (of_ℕ n) ≃ x
unfolding mul
mul-quo x n = rw (quo-months x n) (
    rw (*ℤ-pos-pos x.num 1 n)
      (rw (*ℤ-pos-pos x.num (1 * n) x.den) (ap (λ (k : ℕ). x.num *ℤ pos k) (omega arith))))

-- The sign of a difference is the order.
sub_signs :
    (a b : ℤ)
    → (ltb_ℤ (a -ℤ b) (pos 0) ≡ ltb_ℤ a b)
      × (ltb_ℤ (pos 0) (a -ℤ b) ≡ ltb_ℤ b a)
      × (leb_ℤ a b ≡ not (ltb_ℤ b a))
unfolding ◌-ℤ◌
sub_signs a b = (ground arith, ground arith, ground arith)

lt_asymm : (a b : ℤ) → ltb_ℤ a b ≡ true → ltb_ℤ b a ≡ false
lt_asymm a b h = ground arith

-- The amount that is shared out over the months: the difference, and zero if it is negative.
abbrev clipped : Rat → Rat
clipped x = if is_negative x then of_ℕ 0 else x

-- The three ways in which two fractions compare, as the two tests see them.
data Compared (x y : Rat) : Type 0 where
  below : is_negative (sub x y) ≡ true → le x y ≡ true → Compared x y
  above :
      is_negative (sub x y) ≡ false → is_positive (sub x y) ≡ true → le x y ≡ false → Compared x y
  equal : is_negative (sub x y) ≡ false → (sub x y).num ≡ pos 0 → le x y ≡ true → Compared x y

equal_parts : (a b : ℤ) → ltb_ℤ a b ≡ false → ltb_ℤ b a ≡ false → a -ℤ b ≡ pos 0
unfolding ◌-ℤ◌
equal_parts a b h k = ground arith

compare_by : (x y : Rat) → Compared x y
unfolding sub
compare_by x y =
    let a = x.num *ℤ pos y.den in
    let b = y.num *ℤ pos x.den in
    let s = sub_signs a b in
    elim (Bool-cases (ltb_ℤ a b)) [
      | inl less ↦ below (s.0 ∙ less) (s.2 ∙ ap not (lt_asymm a b less))
      | inr h ↦ elim (Bool-cases (ltb_ℤ b a)) [
        | inl more ↦ above (s.0 ∙ h) (s.1 ∙ more) (s.2 ∙ ap not more)
        | inr k ↦ equal (s.0 ∙ h) (equal_parts a b h k) (s.2 ∙ ap not k)
      ]
    ]

zero_value : (x y : Rat) → x.num ≡ pos 0 → y.num ≡ pos 0 → x ≃ y
unfolding ◌*ℤ◌
zero_value x y h k = rw (h, k) (ground arith)

mul-quo-clipped :
    (x y : Rat) (n : ℕ) → mul (quo (clipped (sub x y)) (of_ℕ n)) (of_ℕ n) ≃ remaining x y
mul-quo-clipped x y n = elim (compare_by x y) [
  | below g l ↦ rw (g, l) (mul-quo (of_ℕ 0) n)
  | above g p l ↦ rw (g, l) (mul-quo (sub x y) n)
  | equal g z l ↦
      rw (g, l)
        (zero_value (mul (quo (sub x y) (of_ℕ n)) (of_ℕ n)) (of_ℕ 0)
          (unfold mul in rw (quo-months (sub x y) n, z) (unfold ◌*ℤ◌ in ground arith)) refl)
]

-- Nothing remains exactly when the target is not above the saved amount.
clipped_zero :
    (x y : Rat) (n : ℕ)
    → let q = quo (clipped (sub x y)) (of_ℕ n) in
      (not (is_negative q) && not (is_positive q)) ≡ le x y
clipped_zero x y n = elim (compare_by x y) [
  | below g l ↦ rw (quo-months (clipped (sub x y)) n, g, l) (unfold ◌*ℤ◌ in refl)
  | above g p l ↦
      rw (quo-months (clipped (sub x y)) n, g, l) (ground (arith, *ℤ-pos (sub x y).num 1))
  | equal g z l ↦ rw (quo-months (clipped (sub x y)) n, g, l, z) (unfold ◌*ℤ◌ in refl)
]

-- The answer while the deadline lies ahead, in terms of what the two pointers held before: the pointer
-- to the target, whether the target is reached, and a heap in which the saved amount is as before and
-- the target's place holds the monthly amount, which times the months gives what remains.
pub record Instalment (h : Heap) (target saved : Pointer) (today deadline : Time) : Type 0 where
  pub heap : Heap
  pub answer :
      compute_required_monthly h target saved today deadline
      ≡ ok (target, le (h target) (h saved), heap)
  pub kept : (q : Pointer) → q ≢ target → heap q ≡ h q
  pub share :
      mul (heap target) (of_ℕ (months_until today deadline)) ≃ remaining (h target) (h saved)

months_until_pos : (today deadline : Time) → 1 ≤ months_until today deadline
unfolding months_until
months_until_pos today deadline = (months_between_fewest (date today) (date deadline)).0

write_self : (h : Heap) (z : Pointer) (x : Rat) → write h z x z ≡ x
write_self h z x = rw (==_refl z)

write_ne : (h : Heap) (z q : Pointer) (x : Rat) → q ≢ z → write h z x q ≡ h q
write_ne h z q x ne = ground arith

clip_self : (h : Heap) (z : Pointer) → clip h z z ≡ clipped (h z)
clip_self h z = elim (Bool-cases (is_negative (h z))) [ inl n ↦ rw (n, ==_refl z) | inr n ↦ rw n ]

clip_ne : (h : Heap) (z q : Pointer) → q ≢ z → clip h z q ≡ h q
clip_ne h z q ne = elim (Bool-cases (is_negative (h z))) [
  | inl n ↦ rw n (write_ne h z q (of_ℕ 0) ne)
  | inr n ↦ rw n
]

module _ (h : Heap) (target saved : Pointer) (today deadline : Time)
    (ahead : after deadline today ≡ true) where
  final : Heap
  final = divided (clip (subtracted h target saved) target) target (months_until today deadline)

  final_target :
      final target ≡ quo (clipped (sub (h target) (h saved))) (of_ℕ (months_until today deadline))
  unfolding final
  final_target =
      rw (write_self _ target _, clip_self (subtracted h target saved) target)
        (rw (write_self h target (sub (h target) (h saved))))

  final_kept : (q : Pointer) → q ≢ target → final q ≡ h q
  unfolding final
  final_kept q ne =
      write_ne (clip (subtracted h target saved) target) target q _ ne
      ∙ clip_ne (subtracted h target saved) target q ne
      ∙ write_ne h target q (sub (h target) (h saved)) ne

  months_test : (months_until today deadline == 0) ≡ false
  months_test = let p = months_until_pos today deadline in ground arith

  final_zero : is_zero_rat (final target) ≡ le (h target) (h saved)
  final_zero = rw final_target (clipped_zero (h target) (h saved) (months_until today deadline))

  -- While the deadline lies ahead, the computation succeeds, and what is to be saved each month, times
  -- the months, is what remains; it says that the goal is reached exactly when the saved amount is not
  -- below the target. It writes no pointer but the target's.
  pub compute_required_monthly-Instalment : Instalment h target saved today deadline
  unfolding compute_required_monthly final
  compute_required_monthly-Instalment = record {
    heap = final;
    answer = rw (ahead, months_test) (ap (λ (b : Bool). ok (target, b, final)) final_zero);
    kept = final_kept;
    share = rw final_target (mul-quo-clipped (h target) (h saved) (months_until today deadline));
  }
