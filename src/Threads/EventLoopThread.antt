-- ===== src/Threads/EventLoopThread.antt =====
-- pallette/EventLoopThread.cpp. A step of the caller of `startLoop` and the destructor, or of the
-- thread, which starts by `Thread::start`. The loop is known by being there or not; `loop.loop()`
-- may return at any time, as after a call of `quit` from anywhere.
pub mod Started
mod Tests
use pallette.Base.{ℕ, ◌≡◌, Bool, true, false, not, ◌&&◌, Option, none, some}
use pallette.Base.Tests.{if◌then◌else◌}
use pallette.Buffer.{◌>>=◌, ◌>>◌, guard}

-- `threadFunc`: not begun, making the loop and in the callback, in `loop`, or past it.
pub data Runner : Type 0 where
  absent : Runner
  preparing : Runner
  looping : Runner
  ended : Runner

-- The owner: before `startLoop`, at the test of its loop, asleep in it, past it, back with a loop or
-- with NULL, in `join`, and at the end of the destructor.
pub data Owner : Type 0 where
  outside : Owner
  testing : Owner
  asleep : Owner
  past_wait : Owner
  returned : (is_loop : Bool) → Owner
  joining : Owner
  gone : Owner

pub record EventLoopThread : Type 0 where
  pub loop : Bool
  pub exiting : Bool
  pub quits : Bool
  pub runner : Runner
  pub owner : Owner

abbrev pub new : EventLoopThread
new = record { loop = false; exiting = false; quits = false; runner = absent; owner = outside }

abbrev pub is_started : Runner → Bool
is_started absent = false
is_started preparing = true
is_started looping = true
is_started ended = true

-- `startLoop` to its lock.
unfoldable pub start_loop : EventLoopThread → Option EventLoopThread
start_loop s =
    guard (not (is_started s.runner)) >> some (record s { runner = preparing; owner = testing })

unfoldable pub test : EventLoopThread → EventLoopThread
test s = record s { owner = if s.loop then past_wait else asleep }

-- The end of `startLoop` reads `loop_` again, without the lock.
unfoldable pub leave : EventLoopThread → EventLoopThread
leave s = record s { owner = returned s.loop }

abbrev pub notified : Owner → Owner
notified outside = outside
notified testing = testing
notified asleep = testing
notified past_wait = past_wait
notified (returned l) = returned l
notified joining = joining
notified gone = gone

-- The locked part of `threadFunc`.
unfoldable pub publish : EventLoopThread → EventLoopThread
publish s = record s { loop = true; runner = looping; owner = notified s.owner }

unfoldable pub end_loop : EventLoopThread → EventLoopThread
end_loop s = record s { loop = false; runner = ended }

-- The destructor.
unfoldable pub destroy : EventLoopThread → EventLoopThread
destroy s =
    if s.loop
    then record s { exiting = true; quits = true; owner = joining }
    else record s { exiting = true; owner = gone }

unfoldable pub leave_join : EventLoopThread → EventLoopThread
leave_join s = record s { owner = gone }

pub data Step (s : EventLoopThread) : EventLoopThread → Type 0 where
  starts : {t : EventLoopThread} → s.owner ≡ outside → start_loop s ≡ some t → Step s t
  tests : s.owner ≡ testing → Step s (test s)
  wakes : s.owner ≡ asleep → Step s (record s { owner = testing })
  leaves : s.owner ≡ past_wait → Step s (leave s)
  publishes : s.runner ≡ preparing → Step s (publish s)
  ends : s.runner ≡ looping → Step s (end_loop s)
  destroys_unused : s.owner ≡ outside → Step s (destroy s)
  destroys : {l : Bool} → s.owner ≡ returned l → Step s (destroy s)
  joins : s.owner ≡ joining → s.runner ≡ ended → Step s (leave_join s)

pub data Steps (s : EventLoopThread) : EventLoopThread → Type 0 where
  none_left : Steps s s
  then_step : {t u : EventLoopThread} → Steps s t → Step t u → Steps s u
