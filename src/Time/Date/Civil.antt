-- ===== src/Time/Date/Civil.antt =====
-- Julian day numbers against the calendar.
use pallette.Base.{
  ℕ, zero, suc, ◌+◌, ◌-◌, ◌*◌, ◌/◌, ◌%◌, ◌≤◌, ◌≡◌, refl, sym, ap, ◌∙◌, ◌⊎◌, inl, inr, arith, Bool,
  false, not, ◌||◌, ◌&&◌,
}
use pallette.Base.Tests.{◌==◌, ltb, Bool-cases, ltb_false→le, ltb→lt, if◌then◌else◌}
use pallette.Time.Date.{YearMonthDay, get_julian_day_number}

abbrev pub is_leap : ℕ → Bool
is_leap y = (y % 4 == 0) && (not (y % 100 == 0) || (y % 400 == 0))

abbrev pub days_in_month : ℕ → ℕ → ℕ
days_in_month y m =
    if ((m == 4) || (m == 6)) || ((m == 9) || (m == 11))
    then 30
    else (if not (m == 2) then 31 else if is_leap y then 29 else 28)

pub record IsDate (t : YearMonthDay) : Type 0 where
  pub month_in : (1 ≤ t.month) × (t.month ≤ 12)
  pub day_in : (1 ≤ t.day) × (t.day ≤ days_in_month t.year t.month)

-- The day after a date, by the calendar.
abbrev pub next : YearMonthDay → YearMonthDay
next t =
    if ltb t.day (days_in_month t.year t.month)
    then record t { day = t.day + 1 }
    else if ltb t.month 12
    then record t { month = t.month + 1; day = 1 }
    else record { year = t.year + 1; month = 1; day = 1 }

abbrev number : YearMonthDay → ℕ
number t = get_julian_day_number t.year t.month t.day

-- Days from 1 March to the start of a month, counted from March.
abbrev before_month : ℕ → ℕ
before_month m = (153 * m + 2) / 5

before_month-suc :
    (m : ℕ)
    → 3 ≤ m
    → m ≤ 11
    → before_month (m + 1 - 3)
      ≡ before_month (m - 3)
        + (if ((m == 4) || (m == 6)) || ((m == 9) || (m == 11)) then 30 else 31)
before_month-suc m l u = ground arith

-- Days before 1 March of the year `y - 4800`.
abbrev before_year : ℕ → ℕ
before_year y = y * 365 + y / 4 - y / 100 + y / 400

pub late :
    (y m d : ℕ)
    → 3 ≤ m
    → m ≤ 12
    → get_julian_day_number y m d ≡ d + before_month (m - 3) + before_year (y + 4800) - 32045
unfolding get_julian_day_number
late y m d l u = omega arith

pub early :
    (y m d : ℕ)
    → m ≤ 2
    → get_julian_day_number y m d ≡ d + before_month (m + 9) + before_year (y + 4799) - 32045
unfolding get_julian_day_number
early y m d u = omega arith

-- January, February, or later.
Month-cases : (m : ℕ) → 1 ≤ m → (m ≡ 1) ⊎ ((m ≡ 2) ⊎ (3 ≤ m))
Month-cases zero h = absurd (omega arith)
Month-cases (suc zero) h = inl refl
Month-cases (suc (suc zero)) h = inr (inl refl)
Month-cases (suc (suc (suc m))) h = inr (inr (omega arith))

february : (y : ℕ) → get_julian_day_number y 3 1 ≡ get_julian_day_number y 2 (days_in_month y 2) + 1
unfolding get_julian_day_number
february y = ground arith

january : (y : ℕ) → get_julian_day_number y 2 1 ≡ get_julian_day_number y 1 31 + 1
unfolding get_julian_day_number
january y = omega arith

december : (y : ℕ) → get_julian_day_number (y + 1) 1 1 ≡ get_julian_day_number y 12 31 + 1
unfolding get_julian_day_number
december y = omega arith

month_lem :
    (y m : ℕ)
    → 1 ≤ m
    → m ≤ 11
    → get_julian_day_number y (m + 1) 1 ≡ get_julian_day_number y m (days_in_month y m) + 1
month_lem y m l u = elim (Month-cases m l) [
  | inl e ↦ rw e (january y)
  | inr (inl e) ↦ rw e (february y)
  | inr (inr h) ↦
      rw
        (
          late y (m + 1) 1 (omega arith) (omega arith),
          late y m (days_in_month y m) h (omega arith),
          not_two m h,
        )
        (omega (arith, before_month-suc m h u))
]
  where
    not_two : (m : ℕ) → 3 ≤ m → (m == 2) ≡ false
    not_two m h = ground arith

day_lem :
    (y m d : ℕ)
    → 1 ≤ m
    → m ≤ 12
    → 1 ≤ d
    → get_julian_day_number y m (d + 1) ≡ get_julian_day_number y m d + 1
unfolding get_julian_day_number
day_lem y m d l u h = omega arith

-- The day after a date of the calendar has the next Julian day number.
pub number-next :
    (t : YearMonthDay)
    → IsDate t
    → get_julian_day_number (next t).year (next t).month (next t).day
      ≡ get_julian_day_number t.year t.month t.day + 1
number-next t v = elim (Bool-cases (ltb t.day (days_in_month t.year t.month))) [
  | inl more ↦ simp more (day_lem t.year t.month t.day v.month_in.0 v.month_in.1 v.day_in.0)
  | inr last ↦
      let end : t.day ≡ days_in_month t.year t.month =
        omega (arith, ltb_false→le _ _ last, v.day_in) in
      elim (Bool-cases (ltb t.month 12)) [
        | inl within ↦
            simp (last, within)
              (month_lem t.year t.month v.month_in.0 (omega (arith, ltb→lt _ _ within))
                ∙ ap (λ d. get_julian_day_number t.year t.month d + 1) (sym end))
        | inr over ↦
            let m : t.month ≡ 12 = omega (arith, ltb_false→le _ _ over, v.month_in) in
            let d : t.day ≡ 31 = end ∙ ap (days_in_month t.year) m in
            simp (last, over)
              (december t.year
                ∙ ap (λ x. get_julian_day_number t.year x 31 + 1) (sym m)
                ∙ ap (λ x. get_julian_day_number t.year t.month x + 1) (sym d))
      ]
]
