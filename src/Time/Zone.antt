-- ===== src/Time/Zone.antt =====
-- pallette/TimeZone.cpp. A time is in seconds since the epoch, and may be negative. What gmtime_r
-- and timegm answer is an argument of the operations that call them. `none` is an access outside a
-- vector, or a failed assert.
pub mod Utc
pub mod Find
pub mod File
mod Tests
use pallette.Base.{
  ◌^◌, ℕ, zero, suc, ◌+◌, ◌-◌, ◌*◌, ◌/◌, ◌%◌, Bool, true, false, not, ◌&&◌, List, [], ◌∷◌, Option,
  none, some,
}
use pallette.Base.Tests.{ltb, ◌==◌, if◌then◌else◌}
use pallette.Base.Int.{ℤ, pos, negsuc, pos_part, neg_part, ◌+ℤ◌, ◌-ℤ◌, ltb_ℤ}
use pallette.Base.Lists.{get_elem?}
use pallette.Buffer.{◌>>=◌}
use pallette.Time.Date.{
  YearMonthDay, get_julian_day_number, get_year_month_day, week_day, julian_day_of_1970_01_01,
}

pub record Transition : Type 0 where
  pub gmttime : ℤ
  pub localtime : ℤ
  pub localtime_idx : ℕ

pub record Localtime : Type 0 where
  pub gmt_offset : ℤ
  pub is_dst : Bool
  pub arrb_idx : ℕ

pub record Data : Type 0 where
  pub transitions : List Transition
  pub localtimes : List Localtime
  pub abbreviation : List ℕ

-- `struct tm`, its year counted from 1900 and its month from 0.
pub record Tm : Type 0 where
  pub tm_sec : ℕ
  pub tm_min : ℕ
  pub tm_hour : ℕ
  pub tm_mday : ℕ
  pub tm_mon : ℕ
  pub tm_year : ℤ
  pub tm_wday : ℕ
  pub tm_yday : ℕ
  pub tm_isdst : Bool
  pub tm_gmtoff : ℤ

abbrev pub seconds_per_day : ℕ
seconds_per_day = 24 * 60 * 60

-- What `Comp` compares: the time of the transition in UTC, or as local time.
abbrev pub key : Bool → Transition → ℤ
key true t = t.gmttime
key false t = t.localtime

abbrev pub comp : Bool → Transition → Transition → Bool
comp gmt x y = ltb_ℤ (key gmt x) (key gmt y)

abbrev pub equal : Bool → Transition → Transition → Bool
equal gmt x y = not (ltb_ℤ (key gmt x) (key gmt y)) && not (ltb_ℤ (key gmt y) (key gmt x))

-- `std::lower_bound` on the transitions that follow `before`: the transition before the one found,
-- and the one found, where there are any.
pub lower_bound :
    Bool → Transition → Option Transition → List Transition → Option Transition × Option Transition
lower_bound gmt sentry before [] = (before, none)
lower_bound gmt sentry before (x ∷ xs) =
    let rest = lower_bound gmt sentry (some x) xs in
    if comp gmt x sentry then rest else (before, some x)

pub back : Transition → List Transition → Transition
back x [] = x
back x (y ∷ ys) = back y ys

-- The transition that applies: the one found if it is at the time, or else the one before it, or
-- the last.
pub chosen :
    Bool
    → Transition
    → List Transition
    → Transition
    → Option Transition × Option Transition
    → Option Transition
chosen gmt first rest sentry (before, none) = some (back first rest)
chosen gmt first rest sentry (before, some t) = if equal gmt sentry t then some t else before

pub find_localtime : Data → Transition → Bool → Option Localtime
find_localtime d sentry gmt = elim d.transitions [
  | [] ↦ get_elem? d.localtimes 0
  | x ∷ xs ↦
      if comp gmt sentry x
      then get_elem? d.localtimes 0
      else chosen gmt x xs sentry (lower_bound gmt sentry none (x ∷ xs)) >>= λ t.
          get_elem? d.localtimes t.localtime_idx
]

-- `TimeZone(eastOfUtc, name)`.
pub fixed : ℤ → List ℕ → Data
fixed east_of_utc name = record {
  transitions = [];
  localtimes = record { gmt_offset = east_of_utc; is_dst = false; arrb_idx = 0 } ∷ [];
  abbreviation = name;
}

abbrev pub gmt_sentry : ℤ → Transition
gmt_sentry seconds = record { gmttime = seconds; localtime = pos 0; localtime_idx = 0 }

abbrev pub local_sentry : ℤ → Transition
local_sentry seconds = record { gmttime = pos 0; localtime = seconds; localtime_idx = 0 }

-- `fillHMS`.
abbrev pub hms : ℕ → ℕ × ℕ × ℕ
hms seconds = (seconds % 60, seconds / 60 % 60, seconds / 60 / 60)

pub to_local_time : (ℤ → Tm) → Data → ℤ → Option Tm
to_local_time gmtime d seconds = do
  local ← find_localtime d (gmt_sentry seconds) true
  let tm = gmtime (seconds +ℤ local.gmt_offset)
  some (record tm { tm_isdst = local.is_dst; tm_gmtoff = local.gmt_offset })

-- The guess of `fromLocalTime` for a time that says it is daylight saving.
pub hack : (ℤ → Tm) → Data → Tm → ℤ → Localtime → Option ℤ
hack gmtime d local_tm seconds local =
    if local_tm.tm_isdst
    then (do
      try_tm ← to_local_time gmtime d (seconds -ℤ local.gmt_offset)
      some (
          if not try_tm.tm_isdst
            && ((try_tm.tm_hour == local_tm.tm_hour) && (try_tm.tm_min == local_tm.tm_min))
          then seconds -ℤ pos 3600
          else seconds))
    else some seconds

pub from_local_time : (ℤ → Tm) → (Tm → ℤ) → Data → Tm → Option ℤ
from_local_time gmtime timegm d local_tm = do
  let seconds = timegm local_tm
  local ← find_localtime d (local_sentry seconds) false
  seconds' ← hack gmtime d local_tm seconds local
  some (seconds' -ℤ local.gmt_offset)

-- `static_cast<int>`.
unfoldable pub to_int : ℤ → ℤ
to_int (pos n) = let r = n % 2 ^ 32 in if ltb r (2 ^ 31) then pos r else negsuc (2 ^ 32 - 1 - r)
to_int (negsuc n) = let r = n % 2 ^ 32 in if ltb r (2 ^ 31) then negsuc r else pos (2 ^ 32 - 1 - r)

-- Days and seconds of a time, the seconds not negative: `/` and `%` of C++ round to 0.
pub split_days : ℤ → ℤ × ℕ
split_days (pos n) = (to_int (pos (n / seconds_per_day)), n % seconds_per_day)
split_days (negsuc n) =
    let seconds = suc n % seconds_per_day in
    let days = to_int (pos 0 -ℤ pos (suc n / seconds_per_day)) in
    if ltb 0 seconds then (days -ℤ pos 1, seconds_per_day - seconds) else (days, 0)

-- The day number is not negative for times from 4714 BC on, and `int` does not overflow to day
-- 536838867, in the year 1465102.
pub to_utc_time : ℤ → Bool → Tm
to_utc_time seconds_since_epoch yday =
    let (days, seconds) = split_days seconds_since_epoch in
    let (sec, min, hour) = hms seconds in
    let date = pos_part (days +ℤ pos julian_day_of_1970_01_01) in
    let ymd = get_year_month_day date in
    record {
      tm_sec = sec;
      tm_min = min;
      tm_hour = hour;
      tm_mday = ymd.day;
      tm_mon = ymd.month - 1;
      tm_year = pos ymd.year -ℤ pos 1900;
      tm_wday = week_day date;
      tm_yday = if yday then date - get_julian_day_number ymd.year 1 1 else 0;
      tm_isdst = false;
      tm_gmtoff = pos 0;
    }

-- The number of seconds in some days.
abbrev pub in_seconds : ℤ → ℤ
in_seconds (pos d) = pos (d * seconds_per_day)
in_seconds (negsuc d) = negsuc (suc d * seconds_per_day - 1)

pub from_utc : (year month day hour minute seconds : ℕ) → ℤ
from_utc year month day hour minute seconds =
    let seconds_in_day = hour * 3600 + minute * 60 + seconds in
    let days = pos (get_julian_day_number year month day) -ℤ pos julian_day_of_1970_01_01 in
    in_seconds days +ℤ pos seconds_in_day

pub from_utc_time : Tm → ℤ
from_utc_time utc =
    from_utc (pos_part (utc.tm_year +ℤ pos 1900)) (utc.tm_mon + 1) utc.tm_mday utc.tm_hour
      utc.tm_min utc.tm_sec
