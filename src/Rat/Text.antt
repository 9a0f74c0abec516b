-- ===== src/Rat/Text.antt =====
-- Amounts as text: `big.Rat.SetString` on decimal notation and fractions, and `FloatString`. The base
-- prefixes (`0x`, `0b`, `0o`) and the digit separator `_`, which `SetString` takes too, are refused here,
-- and a leading zero in a fraction's parts, octal to `SetString`, is decimal here.
pub mod Valid
use Prim.Native.String.{char_at}
use mali.Prelude.{
  ℕ, zero, suc, ◌+◌, ◌-◌, ◌*◌, ◌/◌, ◌%◌, ◌^◌, String, ◌^^◌, ◌≡◌, refl, Bool, true, false, ◌&&◌,
  ◌||◌, Option, none, some, List, [], ◌∷◌,
}
use mali.Prelude.Tests.{ltb, leb, ◌==◌, if◌then◌else◌}
use mali.Prelude.Text.{codes}
use mali.Prelude.Int.{pos, neg}
use mali.Rat.{Rat, negate, scaled, is_negative}

-- A run of digits: the number that it continues, how many there were, and what follows them.
record Run : Type 0 where
  value : ℕ
  count : ℕ
  rest : List ℕ

digits : ℕ → ℕ → List ℕ → Run
digits n k [] = record { value = n; count = k; rest = [] }
digits n k (c ∷ cs) =
    let more = digits (n * 10 + (c - 48)) (k + 1) cs in
    if leb 48 c && leb c 57 then more else record { value = n; count = k; rest = c ∷ cs }

-- Beyond this exponent `SetString` gives up.
abbrev max_exponent : ℕ
max_exponent = 1_000_000

-- mantissa · 10^(exponent - fraction digits)
abbrev shifted : ℕ → ℕ → ℕ → Rat
shifted m up down = record { num = pos (m * 10 ^ up); den = 10 ^ down }

abbrev is_end : List ℕ → Bool
is_end [] = true
is_end (c ∷ cs) = false

abbrev finish : ℕ → Bool → ℕ → Run → Option Rat
finish m negative frac r =
    if is_end r.rest && ltb 0 r.count && leb r.value max_exponent
    then some (if negative then shifted m 0 (frac + r.value) else shifted m r.value frac)
    else none

exponent : ℕ → ℕ → List ℕ → Option Rat
unfolding digits
exponent m frac [] = some (shifted m 0 frac)
exponent m frac (e ∷ []) = none
exponent m frac (e ∷ s ∷ cs) =
    if e == b'e' || e == b'E'
    then (if s == b'-'
        then finish m true frac (digits 0 0 cs)
        else if s == b'+'
        then finish m false frac (digits 0 0 cs)
        else finish m false frac (digits 0 0 (s ∷ cs)))
    else none

-- What may follow the first `k` digits, whose number is `n`.
abbrev after_whole : ℕ → ℕ → List ℕ → Option Rat
after_whole n k [] = if ltb 0 k then exponent n 0 [] else none
after_whole n k (c ∷ cs) =
    if c == b'.'
    then (let frac = digits n k cs in
        if ltb 0 frac.count then exponent frac.value (frac.count - k) frac.rest else none)
    else if c == b'/'
    then (let below = digits 0 0 cs in
        if ltb 0 k && ltb 0 below.count && is_end below.rest && ltb 0 below.value
        then some (record { num = pos n; den = below.value })
        else none)
    else if ltb 0 k
    then exponent n 0 (c ∷ cs)
    else none

unsigned : List ℕ → Option Rat
unfolding digits exponent
unsigned cs = let whole = digits 0 0 cs in after_whole whole.value whole.count whole.rest

abbrev negated : Option Rat → Option Rat
negated none = none
negated (some x) = some (negate x)

signed : List ℕ → Option Rat
unfolding unsigned negate
signed [] = none
signed (c ∷ cs) =
    if c == b'-'
    then negated (unsigned cs)
    else if c == b'+'
    then unsigned cs
    else unsigned (c ∷ cs)

-- `new(big.Rat).SetString(value)`
unfoldable pub set_string : String → Option Rat
unfolding signed
set_string s = signed (codes s)

digit : ℕ → String
digit n = String.◌∷◌ (char_at "0123456789" n) String.[]

-- The last `k` digits of `n`.
fixed : ℕ → ℕ → String
unfolding digit
fixed zero n = ""
fixed (suc k) n = fixed k (n / 10) ^^ digit (n % 10)

-- The decimal digits of `n`; the fuel `n` is enough, since `n` falls to a tenth at every step.
decimal_from : ℕ → ℕ → String
unfolding digit
decimal_from zero n = digit n
decimal_from (suc f) n =
    let front = decimal_from f (n / 10) in if ltb n 10 then digit n else front ^^ digit (n % 10)

unfoldable pub decimal : ℕ → String
unfolding decimal_from
decimal n = decimal_from n n

-- `FloatString(prec)`, at a positive `prec`.
unfoldable pub float_string : ℕ → Rat → String
unfolding scaled decimal fixed
float_string prec x =
    let q = scaled prec x in
    (if is_negative x then "-" else "") ^^ decimal (q / 10 ^ prec) ^^ "." ^^ fixed prec q

reads :
    (set_string "-12.50" ≡ some (negate (record { num = pos 1250; den = 100 })))
    × (set_string "3/4" ≡ some (record { num = pos 3; den = 4 }))
    × (set_string "1e3" ≡ some (record { num = pos 1000; den = 1 }))
    × (set_string ".5E-1" ≡ some (record { num = pos 5; den = 100 }))
    × (set_string "1,5" ≡ none)
    × (set_string "" ≡ none)
    × (set_string "." ≡ none)
    × (set_string "1/0" ≡ none)
unfolding set_string
reads = (refl, refl, refl, refl, refl, refl, refl, refl)

writes :
    (float_string 4 (record { num = pos 10; den = 3 }) ≡ "3.3333")
    × (float_string 4 (record { num = pos 5; den = 100000 }) ≡ "0.0001")
    × (float_string 4 (negate (record { num = pos 199995; den = 100000 })) ≡ "-2.0000")
unfolding float_string negate neg
writes = (refl, refl, refl)
