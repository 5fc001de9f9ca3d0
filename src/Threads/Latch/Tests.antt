-- ===== src/Threads/Latch/Tests.antt =====
-- A latch of two with one caller, which is asleep when it is counted down.
use pallette.Base.{◌+◌, ◌≤◌, ◌<◌, ◌≡◌, refl, ◌⊎◌, some}
use pallette.Base.Int.{pos}
use pallette.Threads.Latch.{
  CountDownLatch, new, wait, test, count_down, Reaches, starts, waits, tests, counts,
}
use pallette.Threads.Latch.Released.{test_all, Reaches-released}

abbrev asleep : CountDownLatch
asleep = record { count = pos 2; testing = 0; asleep = 1; passed = 0 }

asleep_lem : test (wait (new (pos 2))) ≡ some asleep
unfolding test
asleep_lem = refl

abbrev released : CountDownLatch
released = record { count = pos 0; testing = 1; asleep = 0; passed = 0 }

to_released : Reaches 2 2 released
unfolding count_down
to_released = counts (counts (tests (waits starts) asleep_lem))

Reaches-released_example :
    ((2 < 2) × (released.passed ≡ 0))
    ⊎ ((2 ≤ 2)
        × (released.asleep ≡ 0)
        × (test_all 1 released ≡ some (record released { testing = 0; passed = 0 + 1 })))
Reaches-released_example = Reaches-released 2 2 released to_released
