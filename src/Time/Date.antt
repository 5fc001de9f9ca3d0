-- ===== src/Time/Date.antt =====
-- pallette/Date.h and Date.cpp. A date is its Julian day number; years, months and days are not
-- negative, and a difference that the code takes never falls below 0 for the dates of the theorems
-- (the subtraction of numbers here stops at 0), once 4800 is taken from a year
-- last. `int` is unbounded here: in the code `4 * a + 3` overflows after day 536838867, which is in the
-- year 1465102.
pub mod Civil
pub mod RoundTrip
mod Tests
use pallette.Base.{ℕ, ◌+◌, ◌-◌, ◌*◌, ◌/◌, ◌%◌}

pub record YearMonthDay : Type 0 where
  pub year : ℕ
  pub month : ℕ
  pub day : ℕ

pub get_julian_day_number : ℕ → ℕ → ℕ → ℕ
get_julian_day_number year month day =
    let a = (14 - month) / 12 in
    let y = year + 4800 - a in
    let m = month + 12 * a - 3 in
    day + (153 * m + 2) / 5 + y * 365 + y / 4 - y / 100 + y / 400 - 32045

pub get_year_month_day : ℕ → YearMonthDay
get_year_month_day julian_day_number =
    let a = julian_day_number + 32044 in
    let b = (4 * a + 3) / 146097 in
    let c = a - b * 146097 / 4 in
    let d = (4 * c + 3) / 1461 in
    let e = c - 1461 * d / 4 in
    let m = (5 * e + 2) / 153 in
    record {
      year = b * 100 + d + m / 10 - 4800;
      month = m + 3 - 12 * (m / 10);
      day = e - (153 * m + 2) / 5 + 1;
    }

abbrev pub days_per_week : ℕ
days_per_week = 7

-- [0, 1, ..., 6] are [Sunday, Monday, ..., Saturday].
pub week_day : ℕ → ℕ
week_day julian_day_number = (julian_day_number + 1) % days_per_week

abbrev pub julian_day_of_1970_01_01 : ℕ
julian_day_of_1970_01_01 = 2440588
