-- ===== src/Logging/Async.antt =====
-- pallette/AsyncLogging.cpp. A buffer that was moved away is `none`, and so is a step that uses one.
-- The file is the bytes given to `output.append`. The time that the thread waits is the steps of
-- the others between two of its own.
pub mod Lines
pub mod Sound
pub mod Kept
mod Tests
use pallette.Base.{
  ℕ, zero, suc, ◌+◌, ◌-◌, ◌≡◌, Bool, true, false, List, [], ◌∷◌, ◌++◌, Option, none, some,
}
use pallette.Base.Tests.{ltb, ◌==◌, if◌then◌else◌}
use pallette.Base.Lists.{length, take}
use pallette.Buffer.{◌>>=◌, ◌>>◌, guard}
use pallette.Logging.Stream.{LogBuffer, empty, large_buffer, avail, append, reset}

-- Where the thread is in its loop: at the test of `running_`, before the locked part, before the
-- writing, or past the loop.
pub data Phase : Type 0 where
  checking : Phase
  collecting : Phase
  writing : Phase
  finished : Phase

pub record AsyncLogging : Type 0 where
  pub running : Bool
  pub current : Option LogBuffer
  pub next : Option LogBuffer
  pub buffers : List LogBuffer
  pub phase : Phase
  pub new1 : Option LogBuffer
  pub new2 : Option LogBuffer
  pub to_write : List LogBuffer
  pub file : List ℕ

-- After `start`, when the thread has its own buffers.
abbrev pub started : AsyncLogging
started = record {
  running = true;
  current = some (empty large_buffer);
  next = some (empty large_buffer);
  buffers = [];
  phase = checking;
  new1 = some (empty large_buffer);
  new2 = some (empty large_buffer);
  to_write = [];
  file = [];
}

abbrev pub next_or_new : Option LogBuffer → LogBuffer
next_or_new none = empty large_buffer
next_or_new (some b) = b

unfoldable pub append_line : AsyncLogging → List ℕ → Option AsyncLogging
append_line s line = s.current >>= λ c.
    if ltb (length line) (avail c)
    then some (record s { current = some (append c line) })
    else some (record s {
      buffers = s.buffers ++ (c ∷ []);
      current = some (append (next_or_new s.next) line);
      next = none;
    })

abbrev pub stop : AsyncLogging → AsyncLogging
stop s = record s { running = false }

abbrev pub check_running : AsyncLogging → AsyncLogging
check_running s = record s { phase = if s.running then collecting else finished }

abbrev pub is_empty : List LogBuffer → Bool
is_empty [] = true
is_empty (b ∷ bs) = false

-- What `if (!to) to = std::move(from)` leaves in `to`, and in `from`.
abbrev pub moved_to : Option LogBuffer → Option LogBuffer → Option LogBuffer
moved_to none from = from
moved_to (some b) from = some b

abbrev pub moved_from : Option LogBuffer → Option LogBuffer → Option LogBuffer
moved_from none from = none
moved_from (some b) from = from

-- The locked part of the loop.
unfoldable pub collect : AsyncLogging → Option AsyncLogging
collect s =
    guard (is_empty s.to_write)
    >> (s.current >>= λ c. some (record s {
      current = s.new1;
      next = moved_to s.next s.new2;
      buffers = [];
      phase = writing;
      new1 = none;
      new2 = moved_from s.next s.new2;
      to_write = s.buffers ++ (c ∷ []);
    }))

abbrev pub held : List LogBuffer → List ℕ
held [] = []
held (b ∷ bs) = b.data' ++ held bs

abbrev pub pop_back : List LogBuffer → Option (LogBuffer × List LogBuffer)
pop_back [] = none
pop_back (b ∷ []) = some (b, [])
pop_back (b ∷ c ∷ bs) = pop_back (c ∷ bs) >>= λ r. some (r.0, b ∷ r.1)

abbrev pub resize : List LogBuffer → List LogBuffer
resize bs = if ltb 2 (length bs) then take 2 bs else bs

-- `if (!newBuffer) newBuffer = the last of buffersToWrite`, emptied.
abbrev pub refill : Option LogBuffer → List LogBuffer → Option (LogBuffer × List LogBuffer)
refill (some b) bs = some (b, bs)
refill none bs = pop_back bs >>= λ r. some (reset r.0, r.1)

pub recycle : Option LogBuffer → Option LogBuffer → List LogBuffer → Option (LogBuffer × LogBuffer)
recycle new1 new2 bs = refill new1 (resize bs) >>= λ r. (refill new2 r.1 >>= λ q. some (r.0, q.0))

-- From the writing to the end of the loop's body.
unfoldable pub write : AsyncLogging → Option AsyncLogging
write s =
    guard (if is_empty s.to_write then false else true)
    >> (recycle s.new1 s.new2 s.to_write >>= λ r. some (record s {
      phase = checking;
      new1 = some r.0;
      new2 = some r.1;
      to_write = [];
      file = s.file ++ held s.to_write;
    }))

-- The states that the threads' steps lead to in some order, after the lines that were logged.
pub data Reaches : List (List ℕ) → AsyncLogging → Type 0 where
  start : Reaches [] started
  logs :
      {lines : List (List ℕ)} {s t : AsyncLogging} (line : List ℕ)
      → Reaches lines s
      → append_line s line ≡ some t
      → Reaches (lines ++ (line ∷ [])) t
  stops : {lines : List (List ℕ)} {s : AsyncLogging} → Reaches lines s → Reaches lines (stop s)
  checks :
      {lines : List (List ℕ)} {s : AsyncLogging}
      → Reaches lines s
      → s.phase ≡ checking
      → Reaches lines (check_running s)
  collects :
      {lines : List (List ℕ)} {s t : AsyncLogging}
      → Reaches lines s
      → s.phase ≡ collecting
      → collect s ≡ some t
      → Reaches lines t
  writes :
      {lines : List (List ℕ)} {s t : AsyncLogging}
      → Reaches lines s
      → s.phase ≡ writing
      → write s ≡ some t
      → Reaches lines t
