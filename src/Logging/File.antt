-- ===== src/Logging/File.antt =====
-- pallette/LogFile.cpp, and AppendFile of FileUtil.cpp. What `fwrite` takes of a line, what `time`
-- answers and the parts of a file's name are arguments. Files that were rolled are kept, the oldest
-- first.
pub mod Whole
mod Tests
use pallette.Base.{
  ℕ, zero, suc, ◌+◌, ◌-◌, ◌*◌, ◌/◌, min, Bool, true, false, not, List, [], ◌∷◌, ◌++◌,
}
use pallette.Base.Tests.{ltb, leb, ◌==◌, if◌then◌else◌}
use pallette.Base.Lists.{length, take, drop}
use pallette.Base.Text.{codes}

pub record AppendFile : Type 0 where
  pub name : List ℕ
  pub content : List ℕ
  pub written_bytes : ℕ
  pub flushes : ℕ

abbrev pub opened : List ℕ → AppendFile
opened name = record { name = name; content = []; written_bytes = 0; flushes = 0 }

abbrev pub flush : AppendFile → AppendFile
flush f = record f { flushes = suc f.flushes }

-- The `i`-th call of `fwrite` for a line takes `takes i` bytes, or all of them if they are fewer.
unfoldable pub write_rest : (takes : ℕ → ℕ) → (fuel i : ℕ) → AppendFile → List ℕ → AppendFile
write_rest takes zero i f rest = f
write_rest takes (suc fuel) i f rest =
    let x = min (takes i) (length rest) in
    let go =
      write_rest takes fuel (suc i) (record f { content = f.content ++ take x rest })
        (drop x rest) in
    if length rest == 0 then f else if x == 0 then f else go

-- `AppendFile::append`: the first call, and the loop, each round of which takes a byte.
unfoldable pub append_file : (takes : ℕ → ℕ) → AppendFile → List ℕ → AppendFile
append_file takes f line =
    let n = min (takes 0) (length line) in
    let f' = record f { content = f.content ++ take n line } in
    let f'' = write_rest takes (suc (length line)) 1 f' (drop n line) in
    record f'' { written_bytes = f''.written_bytes + length line }

pub record LogFile : Type 0 where
  pub roll_size : ℕ
  pub flush_interval : ℕ
  pub check_every_n : ℕ
  pub count : ℕ
  pub start_of_period : ℕ
  pub last_roll : ℕ
  pub last_flush : ℕ
  pub file : AppendFile
  pub rolled : List AppendFile

abbrev pub roll_per_seconds : ℕ
roll_per_seconds = 60 * 60 * 24

-- A line, what `fwrite` takes of it, and what `time` answers to `rollFile` and to `appendUnloked`.
pub record Line : Type 0 where
  pub text : List ℕ
  pub takes : ℕ → ℕ
  pub now_of_roll : ℕ
  pub now : ℕ

-- `stamp` is what `strftime` prints of a time.
module _ (basename process_name pid : List ℕ) (stamp : ℕ → List ℕ) where
  abbrev pub get_log_file_name : ℕ → List ℕ
  get_log_file_name now =
      basename ++ (stamp now ++ (process_name ++ (codes "_" ++ (pid ++ codes ".log"))))

  unfoldable pub roll_file : LogFile → ℕ → LogFile
  roll_file s now =
      if ltb s.last_roll now
      then record s {
        last_roll = now;
        last_flush = now;
        start_of_period = now / roll_per_seconds * roll_per_seconds;
        rolled = s.rolled ++ (s.file ∷ []);
        file = opened (get_log_file_name now);
      }
      else s

  -- The constructor, where `rollFile` makes the first file. Its guard `now > lastRoll_` is `now > 0`
  -- here, which `time` passes: it counts seconds since 1970.
  abbrev pub new : (roll_size flush_interval check_every_n now : ℕ) → LogFile
  new roll_size flush_interval check_every_n now = record {
    roll_size = roll_size;
    flush_interval = flush_interval;
    check_every_n = check_every_n;
    count = 0;
    start_of_period = now / roll_per_seconds * roll_per_seconds;
    last_roll = now;
    last_flush = now;
    file = opened (get_log_file_name now);
    rolled = [];
  }

  unfoldable pub check : LogFile → Line → LogFile
  check s l =
      if not (l.now / roll_per_seconds * roll_per_seconds == s.start_of_period)
      then roll_file s l.now_of_roll
      else if ltb s.flush_interval (l.now - s.last_flush)
      then record s { last_flush = l.now; file = flush s.file }
      else s

  unfoldable pub append_unloked : LogFile → Line → LogFile
  append_unloked s l =
      let s' = record s { file = append_file l.takes s.file l.text } in
      if ltb s.roll_size s'.file.written_bytes
      then roll_file s' l.now_of_roll
      else if leb s.check_every_n (suc s.count)
      then check (record s' { count = 0 }) l
      else record s' { count = suc s.count }

  unfoldable pub append_all : LogFile → List Line → LogFile
  append_all s [] = s
  append_all s (l ∷ ls) = append_all (append_unloked s l) ls
