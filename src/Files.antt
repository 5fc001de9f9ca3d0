-- ===== src/Files.antt =====
-- pallette/FileUtil.cpp: ReadSmallFile. What the system calls answer is an argument; 0 is no error.
pub mod Whole
mod Tests
use pallette.Base.{
  ℕ, zero, suc, ◌+◌, ◌-◌, ◌*◌, min, Bool, true, false, List, [], ◌∷◌, ◌++◌, Option, none, some,
}
use pallette.Base.Tests.{ltb, ◌==◌, if◌then◌else◌}
use pallette.Base.Lists.{length, take, drop}

-- What `open` answers, and the bytes of the file behind the descriptor.
pub data Open : Type 0 where
  opens : List ℕ → Open
  fails : (errno : ℕ) → Open

pub data Kind : Type 0 where
  regular directory other : Kind

pub data Stat : Type 0 where
  stats : Kind → (size mtime ctime : ℕ) → Stat
  stat_fails : (errno : ℕ) → Stat

-- `read` gives so many bytes, or what is left or asked for if that is less.
pub data Read : Type 0 where
  gives : ℕ → Read
  read_fails : (errno : ℕ) → Read

abbrev pub buffer_size : ℕ
buffer_size = 64 * 1024

abbrev eisdir : ℕ
eisdir = 21

-- What the caller's variables hold at the end; `none` is not written.
pub record Result : Type 0 where
  pub err : ℕ
  pub content : List ℕ
  pub file_size : Option ℕ
  pub modify_time : Option ℕ
  pub create_time : Option ℕ

abbrev pub result : (err : ℕ) → Result
result err = record {
  err = err;
  content = [];
  file_size = none;
  modify_time = none;
  create_time = none;
}

-- The times are written where the size is, and only for those that want them.
abbrev pub with_times : (modify create : Bool) → (mtime ctime : ℕ) → Result → Result
with_times modify create mtime ctime r = record r {
  modify_time = if modify then some mtime else none;
  create_time = if create then some ctime else none;
}

abbrev pub stat_result : (modify create : Bool) → Stat → Result
stat_result modify create (stats regular size mtime ctime) =
    with_times modify create mtime ctime (record (result 0) { file_size = some size })
stat_result modify create (stats directory size mtime ctime) =
    with_times modify create mtime ctime (result eisdir)
stat_result modify create (stats other size mtime ctime) =
    with_times modify create mtime ctime (result 0)
stat_result modify create (stat_fails errno) = result errno

-- The loop of `readToString`: the `i`-th call of `read` and those behind it.
unfoldable pub read_more :
    (reads : ℕ → Read) → (max_size fuel i : ℕ) → (rest : List ℕ) → Result → Result
read_more reads max_size zero i rest r = r
read_more reads max_size (suc fuel) i rest r =
    let to_read = min (max_size - length r.content) buffer_size in
    let go = λ (n : ℕ).
      let x = min n (min to_read (length rest)) in
      let more =
        read_more reads max_size fuel (suc i) (drop x rest)
          (record r { content = r.content ++ take x rest }) in
      if x == 0 then r else more in
    if ltb (length r.content) max_size
    then elim (reads i) [ gives n ↦ go n | read_fails errno ↦ record r { err = errno } ]
    else r

-- `before` is what the caller's string holds.
unfoldable pub read_to_string :
    Open
    → (before : List ℕ) → (max_size : ℕ) → (size modify create : Bool) → Stat
    → (reads : ℕ → Read) → Result
read_to_string (fails errno) before max_size size modify create stat reads = record (result errno) {
  content = before;
}
read_to_string (opens data') before max_size size modify create stat reads =
    read_more reads max_size (suc max_size) 0 data'
      (if size then stat_result modify create stat else result 0)
