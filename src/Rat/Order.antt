-- ===== src/Rat/Order.antt =====
-- Fractions are ordered by their values.
use native.Mathlib.Nat.{le_of_mul-le-mul_right, mul-le-mul_right}
use mali.Prelude.{ℕ, ◌+◌, ◌*◌, ◌≤◌, ◌≡◌, true, false, arith}
use mali.Prelude.Int.{ℤ, pos, negsuc, pos_part, neg_part, ◌*ℤ◌}
use mali.Rat.{Rat, IsRat, lt, le}

mul_pos_parts :
    (a : ℤ) (d : ℕ)
    → (pos_part (a *ℤ pos d) ≡ pos_part a * d) × (neg_part (a *ℤ pos d) ≡ neg_part a * d)
unfolding ◌*ℤ◌
mul_pos_parts (pos n) d = (ground arith, ground arith)
mul_pos_parts (negsuc n) d = (ground arith, ground arith)

-- x ≤ y, with the parts of the numerators.
abbrev pub AtMost : Rat → Rat → Type 0
AtMost x y =
    pos_part x.num * y.den + neg_part y.num * x.den
    ≤ pos_part y.num * x.den + neg_part x.num * y.den

pub lt-AtMost : (x y : Rat) → lt y x ≡ false → AtMost x y
lt-AtMost x y h = ground (arith, mul_pos_parts x.num y.den, mul_pos_parts y.num x.den)

pub AtMost-lt : (x y : Rat) → AtMost x y → lt y x ≡ false
AtMost-lt x y h = ground (arith, mul_pos_parts x.num y.den, mul_pos_parts y.num x.den)

pub le-AtMost : (x y : Rat) → AtMost x y → le x y ≡ true
le-AtMost x y h = ground (arith, mul_pos_parts x.num y.den, mul_pos_parts y.num x.den)

pub lt_asymm : (x y : Rat) → lt y x ≡ true → lt x y ≡ false
lt_asymm x y h = ground (arith, mul_pos_parts x.num y.den, mul_pos_parts y.num x.den)

pub AtMost-trans : (x y z : Rat) → IsRat y → AtMost x y → AtMost y z → AtMost x z
AtMost-trans x y z w h k =
    let a = pos_part x.num in
    let b = neg_part x.num in
    let c = pos_part y.num in
    let d = neg_part y.num in
    let e = pos_part z.num in
    let f = neg_part z.num in
    le_of_mul-le-mul_right {k = y.den} (scaled_trans a b x.den c d y.den e f z.den h k) w
  where
    scaled_trans :
        (a b u c d v e f t : ℕ)
        → a * v + d * u ≤ c * u + b * v
        → c * t + f * v ≤ e * v + d * t
        → (a * t + f * u) * v ≤ (e * u + b * t) * v
    scaled_trans a b u c d v e f t p q = omega (arith, mul-le-mul_right t p, mul-le-mul_right u q)
