-- ===== src/Time/Date/Tests.antt =====
-- Dates at concrete days.
use pallette.Base.{◌≡◌, refl}
use pallette.Time.Date.{get_julian_day_number, get_year_month_day, julian_day_of_1970_01_01}

epoch : get_julian_day_number 1970 1 1 ≡ julian_day_of_1970_01_01
unfolding get_julian_day_number
epoch = refl

leap_day :
    get_year_month_day (get_julian_day_number 2000 2 29)
    ≡ record { year = 2000; month = 2; day = 29 }
unfolding get_julian_day_number get_year_month_day
leap_day = refl
