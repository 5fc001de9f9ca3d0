-- ===== src/Threads/Thread.antt =====
-- pallette/Thread.h and Thread.cpp, with the latch that `start` waits for. A step of the caller or of
-- the new thread. What the function of the thread does, the thread ids of the kernel and the text of
-- a default name are arguments. `none` is a failed assert, or a step that is not possible.
pub mod Started
mod Tests
use pallette.Base.{
  ℕ, zero, suc, ◌+◌, ◌≡◌, Bool, true, false, not, ◌&&◌, List, [], ◌∷◌, Option, none, some,
}
use pallette.Base.Tests.{ltb, if◌then◌else◌}
use pallette.Base.Int.{pos}
use pallette.Base.Text.{codes}
use pallette.Buffer.{◌>>=◌, ◌>>◌, guard}
use pallette.Threads.Latch.{CountDownLatch, wait, test, count_down, wake}
use pallette.Threads.Latch as Latch

-- Where the new thread is: before `runInThread`, past `gettid`, past `countDown`, or at the end.
pub data Runner : Type 0 where
  absent : Runner
  created : Runner
  identified : Runner
  running : Runner
  finished : Runner
  crashed : Runner

pub record Thread : Type 0 where
  pub started : Bool
  pub joined : Bool
  pub tid : ℕ
  pub name : List ℕ
  pub latch : CountDownLatch
  pub runner : Runner
  pub thread_name : List ℕ

-- `setDefaultName`, and the count of threads after it; `print` is what `snprintf` prints of it.
abbrev pub set_default_name : (print : ℕ → List ℕ) → (num_created : ℕ) → List ℕ → List ℕ × ℕ
set_default_name print num_created [] = (print num_created, suc num_created)
set_default_name print num_created (c ∷ cs) = (c ∷ cs, suc num_created)

abbrev pub new : List ℕ → Thread
new name = record {
  started = false;
  joined = false;
  tid = 0;
  name = name;
  latch = Latch.new (pos 1);
  runner = absent;
  thread_name = codes "unknown";
}

-- `is_created` is that `pthread_create` succeeds. The caller then is in `wait`.
unfoldable pub start : (is_created : Bool) → Thread → Option Thread
start is_created s =
    guard (not s.started)
    >> some (
        if is_created
        then record s { started = true; latch = wait s.latch; runner = created }
        else record s { started = false })

-- The end of `start`, past the latch.
unfoldable pub leave_start : Thread → Option Thread
leave_start s = guard (ltb 0 s.tid) >> some s

unfoldable pub identify : ℕ → Thread → Thread
identify tid s = record s { tid = tid; runner = identified }

abbrev pub name_of : List ℕ → List ℕ
name_of [] = codes "palletteThread"
name_of (c ∷ cs) = c ∷ cs

unfoldable pub begin : Thread → Thread
begin s = record s { latch = count_down s.latch; runner = running; thread_name = name_of s.name }

-- The function returns, or throws.
unfoldable pub end : (throws : Bool) → Thread → Thread
end true s = record s { runner = crashed; thread_name = codes "crashed" }
end false s = record s { runner = finished; thread_name = codes "finished" }

unfoldable pub join : Thread → Option Thread
join s = guard s.started >> (guard (not s.joined) >> some (record s { joined = true }))

-- Whether the destructor detaches the thread.
unfoldable pub is_detached : Thread → Bool
is_detached s = s.started && not s.joined

unfoldable pub on_latch : (CountDownLatch → Option CountDownLatch) → Thread → Option Thread
on_latch step s = step s.latch >>= λ l. some (record s { latch = l })

-- The states of a thread whose id is `tid`.
pub data Reaches (tid : ℕ) : Thread → Type 0 where
  makes : (name : List ℕ) → Reaches tid (new name)
  starts :
      {s t : Thread} (is_created : Bool)
      → Reaches tid s
      → start is_created s ≡ some t
      → Reaches tid t
  identifies : {s : Thread} → Reaches tid s → s.runner ≡ created → Reaches tid (identify tid s)
  begins : {s : Thread} → Reaches tid s → s.runner ≡ identified → Reaches tid (begin s)
  ends :
      {s : Thread} (throws : Bool) → Reaches tid s → s.runner ≡ running → Reaches tid (end throws s)
  tests : {s t : Thread} → Reaches tid s → on_latch test s ≡ some t → Reaches tid t
  wakes : {s t : Thread} → Reaches tid s → on_latch wake s ≡ some t → Reaches tid t
  joins : {s t : Thread} → Reaches tid s → join s ≡ some t → Reaches tid t
