-- ===== src/Logging/Logger/Tests.antt =====
-- Statements of the log at concrete times, in UTC and in a zone east of it.
use pallette.Base.{
  ◌∙◌, ℕ, ◌+◌, ◌-◌, ◌/◌, ◌%◌, ◌<◌, ◌≡◌, refl, true, false, inl, List, [], ◌∷◌, ◌++◌, Option, none,
  some, arith,
}
use pallette.Base.Tests.{if◌then◌else◌}
use pallette.Base.Int.{negsuc, ℤ, pos}
use pallette.Base.Lists.{length, take, replicate, take_all, length-take}
use pallette.Base.Text.{codes, str_eq}
use pallette.Time.Zone.{Data, Tm, fixed}
use pallette.Logging.Stream.{
  emit, put_all, convert, format_integer, append, put, Item, string, integer,
}
use pallette.Logging.Format.{
  next_size, resize, fits, format_loop, string_format, string_format_lem, Prints,
}
use pallette.Logging.Logger.{
  after_slash, put_all, print_seconds, destruct, set_time_zone, refresh, construct, State, Site,
  Level, info, fatal, log, format_time,
}
use pallette.Logging.Logger.Clock.{
  PrintsTime, format_times, all_formatted, texts, format_times-all_formatted,
}
use pallette.Logging.Logger.Written.{ended}

abbrev printing : List ℕ → ℕ → ℤ × List ℕ
printing text size = (pos (length text), take (size - 1) text)

printing-Prints : (text : List ℕ) → Prints (printing text) text
printing-Prints text size = (refl, λ h. shown h)
  where
    shown : length text < size → take (length text) (take (size - 1) text) ≡ text
    shown h =
        take_all (length text) (take (size - 1) text) (omega (arith, length-take (size - 1) text))
        ∙ take_all (size - 1) text (omega (arith, h))

abbrev print_micro : ℕ → List ℕ
print_micro m = (b'0' + m / 100000) ∷ (b'0' + m / 10000 % 10) ∷ (b'0' + m / 1000 % 10) ∷ []

abbrev suffix_of : List ℕ → List ℕ
suffix_of format = if str_eq format (codes "%s.%06dZ") then codes "Z" else []

abbrev vsnprintf : List ℕ → List ℕ → ℕ → ℕ → ℤ × List ℕ
vsnprintf format text m = printing (text ++ codes "." ++ print_micro m ++ suffix_of format)

abbrev hour_of : ℕ → Tm
hour_of n = record {
  tm_sec = n % 60;
  tm_min = n / 60 % 60;
  tm_hour = n / 3600 % 24;
  tm_mday = 1;
  tm_mon = 0;
  tm_year = pos 70;
  tm_wday = 4;
  tm_yday = 0;
  tm_isdst = false;
  tm_gmtoff = pos 0;
}

abbrev gmtime : ℤ → Tm
gmtime (pos n) = hour_of n
gmtime (negsuc n) = hour_of 0

abbrev two : ℕ → List ℕ
two n = (b'0' + n / 10) ∷ (b'0' + n % 10) ∷ []

-- The hour, minute and second of the first day.
abbrev print_tm : Tm → List ℕ
print_tm tm =
    codes "19700101 " ++ two tm.tm_hour ++ codes ":" ++ two tm.tm_min ++ codes ":" ++ two tm.tm_sec

vsnprintf-PrintsTime : PrintsTime gmtime print_tm vsnprintf print_micro
unfolding str_eq
vsnprintf-PrintsTime none text m = printing-Prints _
vsnprintf-PrintsTime (some tz) text m = printing-Prints _

abbrev at_start : Option Data → State
at_start tz = record {
  log_level = info;
  output = 1;
  flush_func = 2;
  time_zone = tz;
  last_second = 0;
  time_text = [];
  written = [];
  flushed = [];
  aborted = false;
}

abbrev times : List ℕ
times = 3661000000 ∷ 3661500000 ∷ 3662000000 ∷ []

texts_utc :
    texts (format_times gmtime print_tm vsnprintf print_micro (at_start none) times)
    ≡ some (
        codes "19700101 01:01:01.000Z"
        ∷ codes "19700101 01:01:01.500Z"
        ∷ codes "19700101 01:01:02.000Z"
        ∷ [])
unfolding format_times format_time refresh print_seconds string_format format_loop fits resize
    next_size str_eq
texts_utc = refl

format_times-all_formatted_example :
    texts (format_times gmtime print_tm vsnprintf print_micro (at_start none) times)
    ≡ all_formatted gmtime print_tm vsnprintf print_micro none times
format_times-all_formatted_example =
    format_times-all_formatted gmtime print_tm vsnprintf print_micro vsnprintf-PrintsTime
      (at_start none) times (inl refl) (omega arith, (omega arith, (omega arith, tt)))

-- The zone is changed within a second: the seconds stay those of the old zone, and the `Z` goes.
abbrev east : State → State
east s = set_time_zone s (some (fixed (pos 28800) (codes "CST")))

abbrev after_first : State
after_first = record (at_start none) { last_second = 3661; time_text = codes "19700101 01:01:01" }

text_after_set_time_zone :
    texts (format_times gmtime print_tm vsnprintf print_micro (east after_first) (3661500000 ∷ []))
    ≡ some (codes "19700101 01:01:01.500" ∷ [])
unfolding format_times format_time refresh print_seconds string_format format_loop fits resize
    next_size str_eq
text_after_set_time_zone = refl

-- In the first second of the epoch there is nothing that was kept.
text_at_epoch :
    texts (format_times gmtime print_tm vsnprintf print_micro (at_start none) (5000 ∷ []))
    ≡ some (codes ".005Z" ∷ [])
unfolding format_times format_time refresh print_seconds string_format format_loop fits resize
    next_size str_eq
text_at_epoch = refl

string_format_example : string_format (printing (replicate 120 b'a')) 2 ≡ some (replicate 120 b'a')
string_format_example =
    string_format_lem (printing (replicate 120 b'a')) (replicate 120 b'a')
      (printing-Prints (replicate 120 b'a')) 0

abbrev site : Level → Site
site level = record {
  file = codes "src/net/main.cpp";
  line = pos 42;
  level = level;
  func = codes "main";
  system_error = true;
  now = 3661000000;
  tid = pos 7;
  errno = 2;
  strerror = codes "No such file";
}

abbrev items : List Item
items = string (codes "port ") ∷ integer 32 (pos 80) ∷ []

log_fatal :
    log gmtime print_tm vsnprintf (at_start none) (site fatal) items
    ≡ some (
        ended fatal after_first (
          codes
            "19700101 01:01:01.000Z [FATAL] [7] main.cpp main 42: { (errno=2  No such file) port 80}\n"))
unfolding log construct destruct put_all put append format_integer convert emit format_time refresh
    print_seconds string_format format_loop fits resize next_size str_eq after_slash
log_fatal = refl
