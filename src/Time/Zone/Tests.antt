-- ===== src/Time/Zone/Tests.antt =====
-- Time zones at concrete data.
use pallette.Base.{◌≡◌, refl, true, false, [], ◌∷◌, some, arith}
use pallette.Base.Int.{pos, negsuc, ◌+ℤ◌}
use pallette.Base.Text.{codes}
use pallette.Time.Zone.{Localtime, Data, Tm, to_utc_time, from_utc_time}
use pallette.Time.Zone.Utc.{from_utc_time-to_utc_time}
use pallette.Time.Zone.File.{read_time_zone_file}
use pallette.Time.Zone.File.RoundTrip.{IsPrintable, print_file, read_time_zone_file-print_file}

-- 31 December 1969, a second before midnight.
before_epoch : from_utc_time (to_utc_time (negsuc 0) true) ≡ negsuc 0
before_epoch = from_utc_time-to_utc_time (negsuc 0) true (omega arith) (omega arith)

from_utc_time-to_utc_time_example : from_utc_time (to_utc_time (pos 951827696) true) ≡ pos 951827696
from_utc_time-to_utc_time_example =
    from_utc_time-to_utc_time (pos 951827696) true (omega arith) (omega arith)

abbrev winter : Localtime
winter = record { gmt_offset = pos 3600; is_dst = false; arrb_idx = 0 }

abbrev summer : Localtime
summer = record { gmt_offset = pos 7200; is_dst = true; arrb_idx = 4 }

abbrev two_changes : Data
two_changes = record {
  transitions =
      record { gmttime = pos 1000; localtime = pos 8200; localtime_idx = 1 }
      ∷ record { gmttime = pos 20000; localtime = pos 23600; localtime_idx = 0 }
      ∷ [];
  localtimes = winter ∷ summer ∷ [];
  abbreviation = codes "CET";
}

shift_one : pos 8200 ≡ pos 1000 +ℤ pos 7200
unfolding ◌+ℤ◌
shift_one = refl

shift_two : pos 23600 ≡ pos 20000 +ℤ pos 3600
unfolding ◌+ℤ◌
shift_two = refl

two_changes-IsPrintable : IsPrintable two_changes
two_changes-IsPrintable = record {
  moments = (
    record { in_range = omega arith; local = summer; at = refl; shifted = shift_one },
    (record { in_range = omega arith; local = winter; at = refl; shifted = shift_two }, tt),
  );
  offsets = (omega arith, (omega arith, tt));
  few_transitions = omega arith;
  few_localtimes = omega arith;
  few_names = omega arith;
}

read_time_zone_file-print_file_example :
    read_time_zone_file (some (print_file two_changes)) ≡ some two_changes
read_time_zone_file-print_file_example =
    read_time_zone_file-print_file two_changes two_changes-IsPrintable

abbrev midnight : Tm
midnight = record {
  tm_sec = 0;
  tm_min = 0;
  tm_hour = 0;
  tm_mday = 1;
  tm_mon = 0;
  tm_year = pos 70;
  tm_wday = 4;
  tm_yday = 0;
  tm_isdst = false;
  tm_gmtoff = pos 0;
}
