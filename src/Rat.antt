-- ===== src/Rat.antt =====
-- What the program uses of Go's `math/big.Rat`: exact fractions with their arithmetic, their sign and
-- their order. A fraction is kept with any positive denominator; the operations below, like those of
-- the source, depend on its value alone.
pub mod Text
pub mod Order
use mali.Prelude.{ℕ, ◌+◌, ◌*◌, ◌/◌, ◌^◌, ◌<◌, Bool}
use mali.Prelude.Tests.{if◌then◌else◌}
use mali.Prelude.Int.{ℤ, pos, ◌+ℤ◌, ◌-ℤ◌, ◌*ℤ◌, neg, abs, ltb_ℤ, leb_ℤ}

pub record Rat : Type 0 where
  pub num : ℤ
  pub den : ℕ

-- The denominator is positive.
abbrev pub IsRat : Rat → Type 0
IsRat x = 0 < x.den

-- `new(big.Rat).SetInt64(n)`
abbrev pub of_ℕ : ℕ → Rat
of_ℕ n = record { num = pos n; den = 1 }

unfoldable pub add : Rat → Rat → Rat
add x y = record { num = x.num *ℤ pos y.den +ℤ y.num *ℤ pos x.den; den = x.den * y.den }

unfoldable pub sub : Rat → Rat → Rat
sub x y = record { num = x.num *ℤ pos y.den -ℤ y.num *ℤ pos x.den; den = x.den * y.den }

unfoldable pub mul : Rat → Rat → Rat
mul x y = record { num = x.num *ℤ y.num; den = x.den * y.den }

-- `Neg`
unfoldable pub negate : Rat → Rat
negate x = record { num = neg x.num; den = x.den }

-- `Abs`
unfoldable pub magnitude : Rat → Rat
magnitude x = record { num = pos (abs x.num); den = x.den }

-- `Sign() < 0`
abbrev pub is_negative : Rat → Bool
is_negative x = ltb_ℤ x.num (pos 0)

-- `Sign() > 0`
abbrev pub is_positive : Rat → Bool
is_positive x = ltb_ℤ (pos 0) x.num

-- `Quo`; the source panics at a zero divisor, and every caller has tested that it is positive.
unfoldable pub quo : Rat → Rat → Rat
quo x y = record {
  num = if is_negative y then neg (x.num *ℤ pos y.den) else x.num *ℤ pos y.den;
  den = x.den * abs y.num;
}

-- `Cmp(y) < 0`
abbrev pub lt : Rat → Rat → Bool
lt x y = ltb_ℤ (x.num *ℤ pos y.den) (y.num *ℤ pos x.den)

-- `Cmp(y) <= 0`
abbrev pub le : Rat → Rat → Bool
le x y = leb_ℤ (x.num *ℤ pos y.den) (y.num *ℤ pos x.den)

-- |x| in units of 10^-prec, to the nearest, halves away from zero.
unfoldable pub scaled : ℕ → Rat → ℕ
scaled prec x = (2 * (abs x.num * 10 ^ prec) + x.den) / (2 * x.den)
