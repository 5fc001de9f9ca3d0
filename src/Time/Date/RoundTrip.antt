-- ===== src/Time/Date/RoundTrip.antt =====
-- From a date to its Julian day number and back.
use pallette.Base.{
  ℕ, zero, suc, ◌+◌, ◌-◌, ◌*◌, ◌/◌, ◌%◌, ◌≤◌, ◌<◌, ◌≡◌, refl, sym, ap, ◌∙◌, inl, inr, arith, true,
}
use pallette.Base.Tests.{ltb, Bool-cases, ltb→lt, ltb_false→le}
use pallette.Time.Date.{YearMonthDay, get_julian_day_number, get_year_month_day}
use pallette.Time.Date.Civil.{is_leap, IsDate, early, late, next, number-next}

-- A day of a year that starts on 1 March: the last one, numbered 365, only before a leap year.
abbrev FitsYear : (b y k : ℕ) → Type 0
FitsYear b y k = (y < 100) × (k ≤ 365) × (k ≡ 365 → (y % 4 ≡ 3) × (y ≡ 99 → b % 4 ≡ 3))

century : (b y k : ℕ) → FitsYear b y k → (4 * (b * 146097 / 4 + 1461 * y / 4 + k) + 3) / 146097 ≡ b
century b y k (h, l, f) = ground (arith)

year_of : (y k : ℕ) → k ≤ 365 → (k ≡ 365 → y % 4 ≡ 3) → (4 * (1461 * y / 4 + k) + 3) / 1461 ≡ y
year_of y k l f = ground arith

-- Days of the months from March.
abbrev FitsMonth : (m d : ℕ) → Type 0
FitsMonth m d = (m ≤ 11) × (1 ≤ d) × (d + (153 * m + 2) / 5 ≤ (153 * (m + 1) + 2) / 5)

month_of : (m d : ℕ) → FitsMonth m d → (5 * (d - 1 + (153 * m + 2) / 5) + 2) / 153 ≡ m
month_of m d (h, l, f) = omega arith

year_parts :
    (y : ℕ) → y * 365 + y / 4 - y / 100 + y / 400 ≡ y / 100 * 146097 / 4 + 1461 * (y % 100) / 4
year_parts y = omega arith

-- What `getYearMonthDay` finds, when `k` days into a year that starts on 1 March are `d` days into
-- its month `m`.
found :
    (y m d k n : ℕ)
    → FitsYear (y / 100) (y % 100) k
    → FitsMonth m d
    → k ≡ d - 1 + (153 * m + 2) / 5
    → n + 32044 ≡ y * 365 + y / 4 - y / 100 + y / 400 + k
    → get_year_month_day n
      ≡ record { year = y + m / 10 - 4800; month = m + 3 - 12 * (m / 10); day = d }
unfolding get_year_month_day
found y m d k n f g e h =
    let a : n + 32044 ≡ y / 100 * 146097 / 4 + 1461 * (y % 100) / 4 + k =
      h ∙ ap (λ x. x + k) (year_parts y) in
    let c : y / 100 * 146097 / 4 + 1461 * (y % 100) / 4 + k - y / 100 * 146097 / 4
        ≡ 1461 * (y % 100) / 4 + k =
      omega arith in
    let r : 1461 * (y % 100) / 4 + k - 1461 * (y % 100) / 4 ≡ d - 1 + (153 * m + 2) / 5 =
      omega (arith, e) in
    let s : y / 100 * 100 + y % 100 ≡ y = omega arith in
    let t : d - 1 + (153 * m + 2) / 5 - (153 * m + 2) / 5 + 1 ≡ d = omega (arith, g) in
    rw
      (
        a,
        century (y / 100) (y % 100) k f,
        c,
        year_of (y % 100) k f.1 (λ l. (f.2 l).0),
        r,
        month_of m d g,
        s,
        t,
      )
      refl

-- A date from March on.
late_fits :
    (t : YearMonthDay)
    → IsDate t
    → 3 ≤ t.month
    → FitsMonth (t.month - 3) t.day × (t.day - 1 + (153 * (t.month - 3) + 2) / 5 ≤ 364)
late_fits t v h = ground (arith, v.month_in, v.day_in)

-- A date in January or February.
early_fits :
    (t : YearMonthDay)
    → IsDate t
    → t.month ≤ 2
    → FitsMonth (t.month + 9) t.day × (t.day - 1 + (153 * (t.month + 9) + 2) / 5 ≤ 365)
early_fits t v h = ground (arith, v.month_in, v.day_in)

leap_day :
    (t : YearMonthDay)
    → IsDate t
    → t.month ≤ 2
    → t.day - 1 + (153 * (t.month + 9) + 2) / 5 ≡ 365
    → is_leap t.year ≡ true
leap_day t v h e = ground (arith, v.month_in, v.day_in)

leap_century :
    (y : ℕ)
    → is_leap y ≡ true
    → ((y + 4799) % 100 % 4 ≡ 3) × ((y + 4799) % 100 ≡ 99 → (y + 4799) / 100 % 4 ≡ 3)
leap_century y h = ground arith

same :
    (t : YearMonthDay) (y m : ℕ)
    → y ≡ t.year
    → m ≡ t.month
    → record { year = y; month = m; day = t.day } ≡ t
same t y m e f = rw (e, f) refl

-- A date from the year 1 on is found again from its Julian day number.
pub get_year_month_day-get_julian_day_number :
    (t : YearMonthDay)
    → IsDate t
    → 1 ≤ t.year
    → get_year_month_day (get_julian_day_number t.year t.month t.day) ≡ t
get_year_month_day-get_julian_day_number t v y = elim (Bool-cases (ltb t.month 3)) [
  | inl jan ↦
      let h : t.month ≤ 2 = omega (arith, ltb→lt _ _ jan) in
      let (g, l) = early_fits t v h in
      found (t.year + 4799) (t.month + 9) t.day _ _
        (omega arith, l, λ e. leap_century t.year (leap_day t v h e)) g refl
        (omega (arith, early t.year t.month t.day h, v.day_in))
      ∙ same t _ _ (omega (arith, v.month_in)) (omega (arith, v.month_in))
  | inr mar ↦
      let h : 3 ≤ t.month = ltb_false→le _ _ mar in
      let (g, l) = late_fits t v h in
      found (t.year + 4800) (t.month - 3) t.day _ _
        (omega arith, omega (arith, l), λ e. absurd (omega (arith, e, l))) g refl
        (omega (arith, late t.year t.month t.day h v.month_in.1, v.day_in))
      ∙ same t _ _ (omega (arith, v.month_in)) (omega (arith, v.month_in))
]

next-IsDate : (t : YearMonthDay) → IsDate t → IsDate (next t)
next-IsDate t v = record {
  month_in = ground (arith, v.month_in, v.day_in);
  day_in = ground (arith, v.month_in, v.day_in);
}

next_year : (t : YearMonthDay) → t.year ≤ (next t).year
next_year t = ground arith

-- The day `n` days after 1 January of the year 1.
abbrev pub first_day : ℕ
first_day = 1721426

IsDate-first_day :
    (n : ℕ)
    → (t : YearMonthDay) × IsDate t
      × (1 ≤ t.year)
      × (get_julian_day_number t.year t.month t.day ≡ first_day + n)
unfolding get_julian_day_number
IsDate-first_day zero = (
  record { year = 1; month = 1; day = 1 },
  record { month_in = omega arith; day_in = omega arith },
  omega arith,
  refl,
)
IsDate-first_day (suc n) =
    let (t, v, y, e) = IsDate-first_day n in
    (next t, next-IsDate t v, omega (arith, next_year t, y), number-next t v ∙ omega (arith, e))

-- Every Julian day number from that of 1 January of the year 1 on gives a date of the calendar,
-- whose Julian day number it is.
pub get_julian_day_number-get_year_month_day :
    (n : ℕ)
    → first_day ≤ n
    → (let t = get_year_month_day n in IsDate t × (get_julian_day_number t.year t.month t.day ≡ n))
get_julian_day_number-get_year_month_day n h =
    let (t, v, y, e) = IsDate-first_day (n - first_day) in
    let k : get_julian_day_number t.year t.month t.day ≡ n = e ∙ omega (arith, h) in
    let f : get_year_month_day n ≡ t =
      ap get_year_month_day (sym k) ∙ get_year_month_day-get_julian_day_number t v y in
    rw f (v, k)
