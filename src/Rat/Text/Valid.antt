-- ===== src/Rat/Text/Valid.antt =====
-- What `SetString` reads has a positive denominator.
use native.Mathlib.Nat.{pow-suc}
use mali.Prelude.{
  ℕ, zero, suc, ◌+◌, ◌-◌, ◌^◌, ◌<◌, ◌≡◌, refl, Bool, true, false, Option, none, some, List, [], ◌∷◌,
  String, arith,
}
use mali.Prelude.Text.{codes}
use mali.Rat.{Rat, IsRat, negate}
use mali.Rat.Text.{
  Run, digits, finish, exponent, after_whole, unsigned, negated, signed, set_string,
}

ten_pos : (k : ℕ) → 0 < 10 ^ k
ten_pos zero = omega arith
ten_pos (suc k) = omega (arith, ten_pos k, pow-suc 10 k)

finish-IsRat :
    (m : ℕ) (negative : Bool) (frac : ℕ) (r : Run) (x : Rat)
    → finish m negative frac r ≡ some x
    → IsRat x
finish-IsRat m negative frac r x h = ground (arith, ten_pos (frac + r.value), ten_pos frac)

exponent-IsRat : (m frac : ℕ) (cs : List ℕ) (x : Rat) → exponent m frac cs ≡ some x → IsRat x
unfolding exponent
exponent-IsRat m frac [] x h = ground (arith, ten_pos frac)
exponent-IsRat m frac (e ∷ []) x h = absurd (ground arith)
exponent-IsRat m frac (e ∷ s ∷ cs) x h = ground (
  arith,
  finish-IsRat m true frac (digits 0 0 cs) x,
  finish-IsRat m false frac (digits 0 0 cs) x,
  finish-IsRat m false frac (digits 0 0 (s ∷ cs)) x,
)

after_whole-IsRat : (n k : ℕ) (cs : List ℕ) (x : Rat) → after_whole n k cs ≡ some x → IsRat x
after_whole-IsRat n k [] x h = ground (arith, exponent-IsRat n 0 [] x)
after_whole-IsRat n k (c ∷ cs) x h = ground (
  arith,
  exponent-IsRat n 0 (c ∷ cs) x,
  exponent-IsRat (digits n k cs).value ((digits n k cs).count - k) (digits n k cs).rest x,
)

unsigned-IsRat : (cs : List ℕ) (x : Rat) → unsigned cs ≡ some x → IsRat x
unfolding unsigned
unsigned-IsRat cs x h =
    after_whole-IsRat (digits 0 0 cs).value (digits 0 0 cs).count (digits 0 0 cs).rest x h

negated-IsRat :
    (o : Option Rat) (x : Rat) → ((y : Rat) → o ≡ some y → IsRat y) → negated o ≡ some x → IsRat x
unfolding negate
negated-IsRat none x k h = absurd (cc)
negated-IsRat (some y) x k h = let d = k y refl in ground arith

signed-IsRat : (cs : List ℕ) (x : Rat) → signed cs ≡ some x → IsRat x
unfolding signed
signed-IsRat [] x h = absurd (cc)
signed-IsRat (c ∷ cs) x h = ground (
  arith,
  negated-IsRat (unsigned cs) x (unsigned-IsRat cs),
  unsigned-IsRat cs x,
  unsigned-IsRat (c ∷ cs) x,
)

pub set_string-IsRat : (s : String) (x : Rat) → set_string s ≡ some x → IsRat x
unfolding set_string
set_string-IsRat s x h = signed-IsRat (codes s) x h
