-- ===== src/Loop/Timers/Tests.antt =====
-- The theorems on timers at a concrete queue.
use pallette.Base.{◌+◌, refl, true, false, [], ◌∷◌, arith}
use pallette.Loop.Timers.{TimerQueue, get_expired, take_out, erase}
use pallette.Loop.Timers.Expired.{Waiting, Expires, get_expired-due}

-- Timers 1, 2 and 3, added in the order 2, 3, 1.
abbrev three : TimerQueue
three = record {
  timer = λ i. record { expiration = i + 9; interval = 0; repeat = false };
  timers =
      record { when = 10; which = 1 }
      ∷ record { when = 11; which = 2 }
      ∷ record { when = 12; which = 3 }
      ∷ [];
  wait_timers = 2 ∷ 3 ∷ 1 ∷ [];
  active_timers = [];
  canceling_timers = [];
  free_timers = [];
  calling_expired_timers = false;
  alarms = 10 ∷ [];
}

three-Waiting : Waiting three
unfolding take_out erase
three-Waiting = refl

get_expired-due_example : Expires three 11 (get_expired three 11)
get_expired-due_example =
    get_expired-due three 11
      (
        ground arith,
        (
          (ground arith, (ground arith, tt)),
          (ground arith, ((ground arith, tt), (ground arith, (tt, tt)))),
        ),
      )
      three-Waiting

-- Timer 7 runs.
abbrev running : TimerQueue
running = record three { active_timers = 7 ∷ []; calling_expired_timers = true }
