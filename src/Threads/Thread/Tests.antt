-- ===== src/Threads/Thread/Tests.antt =====
-- A thread that was started, whose caller is at the latch.
use pallette.Base.{◌≡◌, refl, ◌⊎◌, true, some, none, arith}
use pallette.Base.Text.{codes}
use pallette.Base.Int.{pos}
use pallette.Threads.Latch.{count_down, CountDownLatch, test, wait}
use pallette.Threads.Thread.{
  Thread, new, start, leave_start, identify, begin, created, join, Reaches, makes, starts,
  identifies, begins, tests, on_latch,
}
use pallette.Threads.Thread.Started.{NotBegun, HasBegun, IsPast, Reaches-leave_start}

abbrev made : Thread
made = record (new (codes "io")) {
  started = true;
  latch = wait (new (codes "io")).latch;
  runner = created;
}

made_lem : start true (new (codes "io")) ≡ some made
unfolding start
made_lem = refl

join_unstarted : join (new (codes "io")) ≡ none
unfolding join
join_unstarted = refl

-- Its caller is asleep in the latch when the thread is at its `countDown`, and is woken.
abbrev asleep : Thread
asleep = record made { latch = record { count = pos 1; testing = 0; asleep = 1; passed = 0 } }

asleep_lem : on_latch test made ≡ some asleep
unfolding on_latch test
asleep_lem = refl

abbrev begun : Thread
begun = begin (identify 4711 asleep)

to_begun : Reaches 4711 begun
unfolding identify begin
to_begun =
    begins (identifies (tests (starts true (makes (codes "io")) made_lem) asleep_lem) refl) refl

abbrev woken : CountDownLatch
woken = record { count = pos 0; testing = 1; asleep = 0; passed = 0 }

begun_latch : begun.latch ≡ woken
unfolding identify begin count_down
begun_latch = refl

-- The caller is then through.
abbrev through : Thread
through = record begun { latch = record { count = pos 0; testing = 0; asleep = 0; passed = 1 } }

through_lem : on_latch test begun ≡ some through
unfolding on_latch test identify begin count_down
through_lem = refl

Reaches-leave_start_example :
    (NotBegun through.runner × (through.latch.passed ≡ 0))
    ⊎ (HasBegun through.runner
        × IsPast through
        × (through.tid ≡ 4711)
        × (leave_start through ≡ some through))
Reaches-leave_start_example =
    Reaches-leave_start 4711 through (omega arith) (tests to_begun through_lem)
