-- ===== src/Threads/Pool.antt =====
-- pallette/ThreadPool.cpp. The threads are counted by what they are doing, each step is taken under
-- the mutex or is a test of `running_`, and steps come in any order. The tasks that were put into
-- the queue and those that a thread took are recorded. The callback of new threads is not followed.
pub mod Woken
pub mod Stopped
mod Tests
use pallette.Base.{
  ℕ, zero, suc, ◌+◌, ◌≡◌, Bool, true, false, ◌&&◌, not, List, [], ◌∷◌, ◌++◌, Option, none, some,
}
use pallette.Base.Tests.{ltb, leb, ◌==◌, if◌then◌else◌}
use pallette.Base.Lists.{length}

-- Threads test `running_`, are in `take` or called by it to wait, were woken there, or are in a
-- task; callers of `run` wait, or were woken.
pub record ThreadPool : Type 0 where
  pub max_queue_size : ℕ
  pub running : Bool
  pub queue : List ℕ
  pub threads : ℕ
  pub testing : ℕ
  pub taking : ℕ
  pub waiting : ℕ
  pub woken : ℕ
  pub calling : ℕ
  pub ended : ℕ
  pub blocked : ℕ
  pub roused : ℕ
  pub accepted : List ℕ
  pub taken : List ℕ

abbrev pub new : (max_queue_size : ℕ) → ThreadPool
new n = record {
  max_queue_size = n;
  running = false;
  queue = [];
  threads = 0;
  testing = 0;
  taking = 0;
  waiting = 0;
  woken = 0;
  calling = 0;
  ended = 0;
  blocked = 0;
  roused = 0;
  accepted = [];
  taken = [];
}

-- `none` is the failed assert.
unfoldable pub start : ThreadPool → ℕ → Option ThreadPool
start s n =
    if s.threads == 0 then some (record s { running = true; threads = n; testing = n }) else none

abbrev pub is_full : ThreadPool → Bool
is_full s = ltb 0 s.max_queue_size && leb s.max_queue_size (length s.queue)

-- `notify_one` of the threads that wait in `take`.
unfoldable pub notify_not_empty : ThreadPool → (waiting : ℕ) → ThreadPool
notify_not_empty s zero = s
notify_not_empty s (suc n) = record s { waiting = n; woken = suc s.woken }

-- `notify_one` of the callers that wait in `run`.
unfoldable pub notify_not_full : ThreadPool → (blocked : ℕ) → ThreadPool
notify_not_full s zero = s
notify_not_full s (suc n) = record s { blocked = n; roused = suc s.roused }

-- The end of `run`, where the queue is not full.
unfoldable pub push : ThreadPool → ℕ → ThreadPool
push s t =
    notify_not_empty (record s { queue = s.queue ++ (t ∷ []); accepted = s.accepted ++ (t ∷ []) })
      s.waiting

-- `run`, up to its end or to where it waits; `roused` callers come back here.
unfoldable pub enter_run : ThreadPool → ℕ → ThreadPool
enter_run s t = if is_full s then record s { blocked = suc s.blocked } else push s t

unfoldable pub run : ThreadPool → ℕ → ThreadPool
run s t =
    if s.threads == 0
    then record s { accepted = s.accepted ++ (t ∷ []); taken = s.taken ++ (t ∷ []) }
    else enter_run s t

-- `take`, up to its end or to where it waits, and the call of the task.
unfoldable pub enter_take : ThreadPool → List ℕ → ThreadPool
enter_take s [] =
    if s.running then record s { waiting = suc s.waiting } else record s { testing = suc s.testing }
enter_take s (t ∷ ts) =
    let s' = record s { queue = ts; taken = s.taken ++ (t ∷ []); calling = suc s.calling } in
    if ltb 0 s.max_queue_size then notify_not_full s' s.blocked else s'

unfoldable pub test_running : ThreadPool → ThreadPool
test_running s =
    if s.running then record s { taking = suc s.taking } else record s { ended = suc s.ended }

-- `stop`, up to where it joins the threads.
unfoldable pub stop : ThreadPool → ThreadPool
stop s = record s { running = false; waiting = 0; woken = s.woken + s.waiting }

-- What one thread does, or one caller. A thread that waits may also wake for no reason.
pub data Step : ThreadPool → ThreadPool → Type 0 where
  runs : (s : ThreadPool) (t : ℕ) → Step s (run s t)
  runs_again :
      (s : ThreadPool) (n t : ℕ)
      → (s.threads == 0) ≡ false
      → s.roused ≡ suc n
      → Step s (enter_run (record s { roused = n }) t)
  tests :
      (s : ThreadPool) (n : ℕ)
      → s.testing ≡ suc n
      → Step s (test_running (record s { testing = n }))
  takes :
      (s : ThreadPool) (n : ℕ)
      → s.taking ≡ suc n
      → Step s (enter_take (record s { taking = n }) s.queue)
  takes_again :
      (s : ThreadPool) (n : ℕ)
      → s.woken ≡ suc n
      → Step s (enter_take (record s { woken = n }) s.queue)
  wakes :
      (s : ThreadPool) (n : ℕ)
      → s.waiting ≡ suc n
      → Step s (record s { waiting = n; woken = suc s.woken })
  returns :
      (s : ThreadPool) (n : ℕ)
      → s.calling ≡ suc n
      → Step s (record s { calling = n; testing = suc s.testing })
  stops : (s : ThreadPool) → Step s (stop s)

pub data Steps : ThreadPool → ThreadPool → Type 0 where
  none_left : (s : ThreadPool) → Steps s s
  then_step : {s t u : ThreadPool} → Steps s t → Step t u → Steps s u
