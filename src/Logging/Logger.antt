-- ===== src/Logging/Logger.antt =====
-- pallette/Logging.h and Logging.cpp. The state is the globals, and what a thread keeps of the last
-- time it printed. Output and flush functions are known by numbers. `gmtime_r`, what `snprintf`
-- prints of a broken-down time and `vsnprintf` are arguments. A time is after the epoch.
pub mod Clock
pub mod Written
mod Tests
use pallette.Base.{
  ℕ, zero, suc, ◌+◌, ◌*◌, ◌/◌, ◌%◌, Bool, true, false, not, ◌&&◌, List, [], ◌∷◌, ◌++◌, Option, none,
  some,
}
use pallette.Base.Tests.{leb, ◌==◌, if◌then◌else◌}
use pallette.Base.Int.{ℤ, pos}
use pallette.Base.Lists.{length}
use pallette.Base.Text.{codes}
use pallette.Buffer.{◌>>=◌, ◌>>◌, guard}
use pallette.Time.Zone.{Data, Tm, to_local_time}
use pallette.Logging.Format.{string_format}
use pallette.Logging.Stream.{
  LogBuffer, empty, small_buffer, Item, string, c_string, integer, put_all,
}

pub data Level : Type 0 where
  trace : Level
  debug : Level
  info : Level
  warn : Level
  error : Level
  fatal : Level

abbrev pub rank : Level → ℕ
rank trace = 0
rank debug = 1
rank info = 2
rank warn = 3
rank error = 4
rank fatal = 5

abbrev pub log_level_name : Level → List ℕ
log_level_name trace = codes "TRACE"
log_level_name debug = codes "DEBUG"
log_level_name info = codes "INFO"
log_level_name warn = codes "WARN"
log_level_name error = codes "ERROR"
log_level_name fatal = codes "FATAL"

abbrev is_fatal : Level → Bool
is_fatal level = rank level == rank fatal

-- `InitLogLevel`: whether each of the two variables is in the environment.
unfoldable pub init_log_level : (base_log_trace base_log_debug : Bool) → Level
init_log_level true d = trace
init_log_level false true = debug
init_log_level false false = info

pub record State : Type 0 where
  pub log_level : Level
  pub output : ℕ
  pub flush_func : ℕ
  pub time_zone : Option Data
  pub last_second : ℕ
  pub time_text : List ℕ
  pub written : List (ℕ × List ℕ)
  pub flushed : List ℕ
  pub aborted : Bool

abbrev pub set_log_level : State → Level → State
set_log_level s level = record s { log_level = level }

abbrev pub set_output : State → ℕ → State
set_output s out = record s { output = out }

abbrev pub set_flush : State → ℕ → State
set_flush s flush = record s { flush_func = flush }

abbrev pub set_time_zone : State → Option Data → State
set_time_zone s tz = record s { time_zone = tz }

abbrev pub micro_seconds_per_second : ℕ
micro_seconds_per_second = 1000 * 1000

-- What a statement says of its place, and the system of the moment.
pub record Site : Type 0 where
  pub file : List ℕ
  pub line : ℤ
  pub level : Level
  pub func : List ℕ
  pub system_error : Bool
  pub now : ℕ
  pub tid : ℤ
  pub errno : ℕ
  pub strerror : List ℕ

-- What follows the last slash, if there is one.
unfoldable pub after_slash : List ℕ → Option (List ℕ)
after_slash [] = none
after_slash (c ∷ cs) = elim (after_slash cs) [
  | none ↦ if c == b'/' then some cs else none
  | some base ↦ some base
]

abbrev pub basename : List ℕ → List ℕ
basename file = elim (after_slash file) [ none ↦ file | some base ↦ base ]

abbrev pub time_format : Option Data → List ℕ
time_format none = codes "%s.%06dZ"
time_format (some tz) = codes "%s.%06d"

abbrev pub error_items : Bool → ℕ → List ℕ → List Item
error_items system_error errno text =
    if system_error && not (errno == 0)
    then c_string (some (codes " (errno="))
      ∷ integer 32 (pos errno)
      ∷ c_string (some (codes "  "))
      ∷ c_string (some text)
      ∷ c_string (some (codes ") "))
      ∷ []
    else []

-- What the constructor puts into the buffer.
abbrev pub opening : Site → List ℕ → List Item
opening site time =
    (string time
      ∷ c_string (some (codes " ["))
      ∷ c_string (some (log_level_name site.level))
      ∷ c_string (some (codes "]"))
      ∷ c_string (some (codes " ["))
      ∷ integer 32 site.tid
      ∷ c_string (some (codes "] "))
      ∷ string (basename site.file)
      ∷ c_string (some (codes " "))
      ∷ c_string (some site.func)
      ∷ c_string (some (codes " "))
      ∷ integer 32 site.line
      ∷ c_string (some (codes ": {"))
      ∷ [])
    ++ error_items site.system_error site.errno site.strerror

abbrev closing : List Item
closing = c_string (some (codes "}\n")) ∷ []

module _ (gmtime : ℤ → Tm) (print_tm : Tm → List ℕ)
    (vsnprintf : (format text : List ℕ) (micro_seconds : ℕ) → ℕ → ℤ × List ℕ) where
  abbrev pub broken_down : Option Data → ℕ → Option Tm
  broken_down none seconds = some (gmtime (pos seconds))
  broken_down (some tz) seconds = to_local_time gmtime tz (pos seconds)

  -- The branch that prints the seconds anew, with its assert.
  unfoldable pub print_seconds : Option Data → ℕ → Option (List ℕ)
  print_seconds tz seconds = do
    tm ← broken_down tz seconds
    guard (length (print_tm tm) == 17)
    some (print_tm tm)

  unfoldable pub refresh : State → ℕ → Option State
  refresh s seconds =
      if seconds == s.last_second
      then some s
      else (print_seconds s.time_zone seconds >>= λ text.
          some (record s { last_second = seconds; time_text = text }))

  -- Two rounds of `stringFormat` are enough for any text.
  unfoldable pub format_time : State → ℕ → Option (List ℕ × State)
  format_time s now = do
    t ← refresh s (now / micro_seconds_per_second)
    text ←
        string_format
          (vsnprintf (time_format t.time_zone) t.time_text (now % micro_seconds_per_second)) 2
    some (text, t)

  -- The constructor.
  unfoldable pub construct : State → Site → Option (LogBuffer × State)
  construct s site = do
    r ← format_time s site.now
    b ← put_all (empty small_buffer) (opening site r.0)
    some (b, r.1)

  -- The destructor.
  unfoldable pub destruct : State → Level → LogBuffer → Option State
  destruct s level buffer = do
    b ← put_all buffer closing
    let t = record s { written = s.written ++ ((s.output, b.data') ∷ []) }
    some (
        if is_fatal level
        then record t { flushed = t.flushed ++ (t.flush_func ∷ []); aborted = true }
        else t)

  -- A statement of one of the macros: its items are put between the constructor and the destructor.
  unfoldable pub log : State → Site → List Item → Option State
  log s site items =
      if leb (rank s.log_level) (rank site.level)
      then (do r ← construct s site; b ← put_all r.0 items; destruct r.1 site.level b)
      else some s
