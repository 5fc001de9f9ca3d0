-- ===== src/Time/Zone/Utc.antt =====
-- pallette/TimeZone.cpp, toUtcTime and fromUtcTime.
use native.Mathlib.Nat.{mod-eq_of_lt}
use pallette.Base.{
  ap, suc, ◌^◌, ◌/◌, ◌%◌, ◌*◌, ◌-◌, refl, ℕ, ◌+◌, ◌-◌, ◌*◌, ◌≤◌, ◌<◌, ◌≡◌, Bool, arith,
}
use pallette.Base.Int.{ℤ, pos, negsuc, pos_part, neg_part, ◌+ℤ◌, ◌-ℤ◌, ◌≤ℤ◌}
use pallette.Time.Date.{get_year_month_day, julian_day_of_1970_01_01}
use pallette.Time.Date.RoundTrip.{first_day, get_julian_day_number-get_year_month_day}
use pallette.Base.Tests.{ltb, lt→ltb, if◌then◌else◌}
use pallette.Time.Zone.{
  seconds_per_day, hms, to_int, split_days, to_utc_time, in_seconds, from_utc, from_utc_time,
}

-- The midnight that begins the year 1, in UTC.
abbrev pub year_one : ℤ
year_one = negsuc ((julian_day_of_1970_01_01 - first_day) * seconds_per_day - 1)

to_int_small : (z : ℤ) → pos_part z < 2 ^ 31 → neg_part z ≤ 2 ^ 31 → to_int z ≡ z
unfolding to_int
to_int_small (pos n) h k = rw (mod-eq_of_lt (small n h)) (rw (lt→ltb n (2 ^ 31) h) refl)
  where
    small : (n : ℕ) → n < 2 ^ 31 → n < 2 ^ 32
    small n h = omega (arith, h)
to_int_small (negsuc n) h k =
    rw (mod-eq_of_lt (small n k)) (rw (lt→ltb n (2 ^ 31) (omega (arith, k))) refl)
  where
    small : (n : ℕ) → suc n ≤ 2 ^ 31 → n < 2 ^ 32
    small n h = omega (arith, h)

-- The last second of the last day whose number is computed without an overflow.
abbrev pub last_second : ℤ
last_second = pos ((536838867 - julian_day_of_1970_01_01) * seconds_per_day + (seconds_per_day - 1))

-- The days and seconds, with no bound on the days.
whole_days : ℤ → ℤ × ℕ
whole_days (pos n) = (pos (n / seconds_per_day), n % seconds_per_day)
whole_days (negsuc n) =
    let seconds = suc n % seconds_per_day in
    let days = pos 0 -ℤ pos (suc n / seconds_per_day) in
    if ltb 0 seconds then (days -ℤ pos 1, seconds_per_day - seconds) else (days, 0)

split_days-whole_days : (s : ℤ) → year_one ≤ℤ s → s ≤ℤ last_second → split_days s ≡ whole_days s
unfolding split_days whole_days ◌-ℤ◌
split_days-whole_days (pos n) h k =
    ap (λ days. (days, n % seconds_per_day))
      (to_int_small (pos (n / seconds_per_day)) (omega (arith, k)) (omega arith))
split_days-whole_days (negsuc n) h k =
    ap
      (λ days.
        if ltb 0 (suc n % seconds_per_day)
        then (days -ℤ pos 1, seconds_per_day - suc n % seconds_per_day)
        else (days, 0))
      (to_int_small (pos 0 -ℤ pos (suc n / seconds_per_day)) (ground (arith, h))
        (ground (arith, h)))

whole_days_lem :
    (s : ℤ)
    → (in_seconds (whole_days s).0 +ℤ pos (whole_days s).1 ≡ s)
      × ((whole_days s).1 < seconds_per_day)
unfolding whole_days ◌+ℤ◌ ◌-ℤ◌
whole_days_lem (pos n) = ground arith
whole_days_lem (negsuc n) = ground arith

hms_lem : (n : ℕ) → (hms n).2 * 3600 + (hms n).1 * 60 + (hms n).0 ≡ n
hms_lem n = omega arith

-- From that midnight on, the days of a time are not before it.
late_enough :
    (s : ℤ)
    → year_one ≤ℤ s
    → first_day + neg_part (whole_days s).0 ≤ pos_part (whole_days s).0 + julian_day_of_1970_01_01
unfolding whole_days ◌-ℤ◌
late_enough (pos n) h = ground arith
late_enough (negsuc n) h = ground arith

date_lem :
    (d : ℤ) (k : ℕ)
    → first_day + neg_part d ≤ pos_part d + k
    → (first_day ≤ pos_part (d +ℤ pos k)) × (pos (pos_part (d +ℤ pos k)) -ℤ pos k ≡ d)
unfolding ◌+ℤ◌ ◌-ℤ◌
date_lem d k h = ground arith

year_back : (y : ℕ) → pos_part ((pos y -ℤ pos 1900) +ℤ pos 1900) ≡ y
unfolding ◌+ℤ◌ ◌-ℤ◌
year_back y = ground arith

-- A time from the midnight that begins the year 1 to the end of the day 536838867, in the year
-- 1465102, in UTC, is found again from its calendar date and its hours, minutes and seconds.
pub from_utc_time-to_utc_time :
    (s : ℤ) (yday : Bool)
    → year_one ≤ℤ s
    → s ≤ℤ last_second
    → from_utc_time (to_utc_time s yday) ≡ s
unfolding from_utc_time to_utc_time from_utc
from_utc_time-to_utc_time s yday h top =
    let (days, seconds) = whole_days s in
    let (k, e) = date_lem days julian_day_of_1970_01_01 (late_enough s h) in
    let (v, n) =
      get_julian_day_number-get_year_month_day (pos_part (days +ℤ pos julian_day_of_1970_01_01))
        k in
    let m = v.month_in in
    rw
      (
        split_days-whole_days s h top,
        year_back (get_year_month_day (pos_part (days +ℤ pos julian_day_of_1970_01_01))).year,
        month (get_year_month_day (pos_part (days +ℤ pos julian_day_of_1970_01_01))).month
            v.month_in.0,
        n,
        e,
        hms_lem seconds,
      )
      (whole_days_lem s).0
  where
    month : (m : ℕ) → 1 ≤ m → m - 1 + 1 ≡ m
    month m h = omega arith
