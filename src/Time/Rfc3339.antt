-- ===== src/Time/Rfc3339.antt =====
-- `time.Parse(time.RFC3339, text)`: a date, a time of day with or without a fraction, and `Z` or an
-- offset. The laxer spellings that `Parse` takes besides (an hour of one digit, a comma before the
-- fraction) are refused here, and an instant before the year 0 is its start.
use mali.Prelude.{
  ℕ, zero, suc, ◌+◌, ◌-◌, ◌*◌, ◌/◌, ◌%◌, ◌≡◌, refl, Bool, true, false, ◌&&◌, ◌||◌, Option, none,
  some, List, [], ◌∷◌, String,
}
use mali.Prelude.Tests.{ltb, leb, ◌==◌, not, if◌then◌else◌}
use mali.Prelude.Text.{codes}
use mali.Time.{Time, second, minute, hour, day, date, zero_time}

abbrev is_digit : ℕ → Bool
is_digit c = leb 48 c && leb c 57

abbrev skip : ℕ → List ℕ → List ℕ
skip zero cs = cs
skip (suc n) [] = []
skip (suc n) (c ∷ cs) = skip n cs

-- `count` digits, and what they mean.
abbrev digits_next : ℕ → List ℕ → Bool
digits_next zero cs = true
digits_next (suc n) [] = false
digits_next (suc n) (c ∷ cs) = is_digit c && digits_next n cs

abbrev value_next : ℕ → ℕ → List ℕ → ℕ
value_next acc zero cs = acc
value_next acc (suc n) [] = acc
value_next acc (suc n) (c ∷ cs) = value_next (acc * 10 + (c - 48)) n cs

-- The number that `count` digits after the first `start` characters write, if it lies in a range.
abbrev number_at : ℕ → ℕ → List ℕ → ℕ
number_at start count cs = value_next 0 count (skip start cs)

abbrev range_at : ℕ → ℕ → ℕ → ℕ → List ℕ → Bool
range_at start count low high cs =
    let n = number_at start count cs in digits_next count (skip start cs) && leb low n && leb n high

abbrev mark_at : ℕ → ℕ → List ℕ → Bool
mark_at start mark cs = elim (skip start cs) [ [] ↦ false | c ∷ rest ↦ c == mark ]

abbrev is_leap : ℕ → Bool
is_leap y = y % 4 == 0 && (not (y % 100 == 0) || y % 400 == 0)

-- The days of a year before a month begins, counted in a common year.
unfoldable days_before : ℕ → ℕ
days_before m = (367 * m - 362) / 12 - (if ltb 2 m then 2 else 0)

unfoldable days_in : ℕ → ℕ → ℕ
unfolding days_before
days_in y m = if m == 2 && is_leap y then 29 else days_before (m + 1) - days_before m

-- The days before a date, from the start of the year 0.
unfoldable day_of_date : ℕ → ℕ → ℕ → ℕ
unfolding days_before
day_of_date y m d =
    365 * y
    + (y + 3) / 4
    - (y + 99) / 100
    + (y + 399) / 400
    + days_before m
    + (if ltb 2 m && is_leap y then 1 else 0)
    + (d - 1)

record Tail : Type 0 where
  nanos : ℕ
  rest : List ℕ

-- The digits of a fraction: those beyond nanoseconds count for nothing.
fraction : ℕ → List ℕ → Tail
fraction unit [] = record { nanos = 0; rest = [] }
fraction unit (c ∷ cs) =
    let more = fraction (unit / 10) cs in
    if is_digit c
    then record { nanos = (c - 48) * unit + more.nanos; rest = more.rest }
    else record { nanos = 0; rest = c ∷ cs }

abbrev after_dot : List ℕ → Option Tail
after_dot cs = if digits_next 1 cs then some (fraction 100_000_000 cs) else none

unfoldable read_fraction : List ℕ → Option Tail
unfolding fraction
read_fraction [] = some (record { nanos = 0; rest = [] })
read_fraction (c ∷ cs) =
    if c == b'.' then after_dot cs else some (record { nanos = 0; rest = c ∷ cs })

abbrev is_end : List ℕ → Bool
is_end [] = true
is_end (c ∷ cs) = false

-- What the offset puts the instant at.
unfoldable with_offset : ℕ → List ℕ → Option Time
with_offset local cs =
    let offset = number_at 1 2 cs * hour + number_at 4 2 cs * minute in
    let fits = range_at 1 2 0 24 cs && mark_at 3 b':' cs && range_at 4 2 0 60 cs in
    if fits && is_end (skip 6 cs) && mark_at 0 b'+' cs
    then some (local - offset)
    else if fits && is_end (skip 6 cs) && mark_at 0 b'-' cs
    then some (local + offset)
    else none

unfoldable with_zone : ℕ → List ℕ → Option Time
unfolding with_offset
with_zone local [] = none
with_zone local (c ∷ []) = if c == b'Z' then some local else none
with_zone local (c ∷ d ∷ cs) = with_offset local (c ∷ d ∷ cs)

abbrev with_tail : ℕ → Option Tail → Option Time
with_tail local none = none
with_tail local (some t) = with_zone (local + t.nanos) t.rest

unfoldable well_formed : List ℕ → Bool
unfolding days_in
well_formed cs =
    range_at 0 4 0 9999 cs
    && mark_at 4 b'-' cs
    && range_at 5 2 1 12 cs
    && mark_at 7 b'-' cs
    && range_at 8 2 1 (days_in (number_at 0 4 cs) (number_at 5 2 cs)) cs
    && mark_at 10 b'T' cs
    && range_at 11 2 0 23 cs
    && mark_at 13 b':' cs
    && range_at 14 2 0 59 cs
    && mark_at 16 b':' cs
    && range_at 17 2 0 59 cs

unfoldable parse_codes : List ℕ → Option Time
unfolding well_formed read_fraction with_zone day_of_date
parse_codes cs =
    if not (well_formed cs)
    then none
    else with_tail
        (day_of_date (number_at 0 4 cs) (number_at 5 2 cs) (number_at 8 2 cs) * day
          + number_at 11 2 cs * hour
          + number_at 14 2 cs * minute
          + number_at 17 2 cs * second)
        (read_fraction (skip 19 cs))

unfoldable pub parse_rfc3339 : String → Option Time
unfolding parse_codes
parse_rfc3339 text = parse_codes (codes text)

abbrev noon : Time
noon = 739982 * day + 12 * hour

reads_noon : parse_rfc3339 "2026-01-01T14:00:00+02:00" ≡ some noon
unfolding parse_rfc3339
reads_noon = refl

reads_fraction : parse_rfc3339 "0001-01-01T00:00:00.5Z" ≡ some (zero_time + 500_000_000)
unfolding parse_rfc3339
reads_fraction = refl

refuses_day : parse_rfc3339 "2025-02-29T00:00:00Z" ≡ none
unfolding parse_rfc3339
refuses_day = refl

leap_date :
    date (day_of_date 2024 2 29 * day) ≡ record { year = 2024; month = 2; day_of_month = 29 }
unfolding date day_of_date
leap_date = refl
