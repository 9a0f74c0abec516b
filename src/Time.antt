-- ===== src/Time.antt =====
-- What the program uses of Go's `time`: instants in UTC, calendar dates and midnight. An instant is the
-- number of nanoseconds since the start of the year 0, the first that RFC 3339 can write.
pub mod Rfc3339
use mali.Prelude.{ℕ, ◌+◌, ◌-◌, ◌*◌, ◌/◌, ◌%◌, ◌≡◌, refl, Bool}
use mali.Prelude.Tests.{ltb, ◌==◌, if◌then◌else◌}

abbrev pub Time : Type 0
Time = ℕ

abbrev pub second : ℕ
second = 1_000_000_000

abbrev pub minute : ℕ
minute = 60 * second

abbrev pub hour : ℕ
hour = 60 * minute

abbrev pub day : ℕ
day = 24 * hour

-- `time.Time{}`, the start of the year 1.
abbrev pub zero_time : Time
zero_time = 366 * day

abbrev pub is_zero : Time → Bool
is_zero t = t == zero_time

-- `t.After(u)`
abbrev pub after : Time → Time → Bool
after t u = ltb u t

pub record Date : Type 0 where
  pub year : ℕ
  pub month : ℕ
  pub day_of_month : ℕ

-- The Gregorian date of a day, by eras of 400 years that begin on the first of March.
unfoldable pub date_of_day : ℕ → Date
date_of_day n =
    let z = n + 146037 in
    let era = z / 146097 in
    let doe = z % 146097 in
    let yoe = (doe - doe / 1460 + doe / 36524 - doe / 146096) / 365 in
    let doy = doe - (365 * yoe + yoe / 4 - yoe / 100) in
    let mp = (5 * doy + 2) / 153 in
    let m = if ltb mp 10 then mp + 3 else mp - 9 in
    record {
      year = (if ltb m 3 then yoe + 1 else yoe) + era * 400 - 400;
      month = m;
      day_of_month = doy - (153 * mp + 2) / 5 + 1;
    }

-- `t.Year()`, `t.Month()`, `t.Day()`
unfoldable pub date : Time → Date
unfolding date_of_day
date t = date_of_day (t / day)

zero_date : date zero_time ≡ record { year = 1; month = 1; day_of_month = 1 }
unfolding date
zero_date = refl

first_day : date 0 ≡ record { year = 0; month = 1; day_of_month = 1 }
unfolding date
first_day = refl

leap_day : date_of_day (366 + 737483) ≡ record { year = 2020; month = 2; day_of_month = 29 }
unfolding date_of_day
leap_day = refl
