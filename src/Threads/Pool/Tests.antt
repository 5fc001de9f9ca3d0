-- ===== src/Threads/Pool/Tests.antt =====
-- One thread, room for one task, and two callers.
use pallette.Base.{◌+◌, ◌≤◌, ◌≡◌, ◌⊎◌, refl, true, ◌++◌}
use pallette.Base.Lists.{length}
use pallette.Threads.Pool.{
  ThreadPool, new, start, push, notify_not_empty, enter_run, run, test_running, stop, runs, tests,
  stops, Steps, none_left, then_step,
}
use pallette.Threads.Pool.Woken.{Steps-woken}
use pallette.Threads.Pool.Stopped.{Steps-order}

abbrev started : ThreadPool
started = record (new 1) { running = true; threads = 1; testing = 1 }

abbrev over : ThreadPool
over = test_running (record (stop (run (run started 7) 8)) { testing = 0 })

over-Steps : Steps started over
unfolding test_running stop run enter_run push notify_not_empty
over-Steps =
    then_step
      (then_step (then_step (then_step (none_left started) (runs started 7)) (runs _ 8)) (stops _))
      (tests _ 0 refl)

Steps-woken_example :
    ((over.waiting ≡ 0) ⊎ (length over.queue ≤ over.woken))
    × ((over.blocked ≡ 0) ⊎ (over.max_queue_size ≤ length over.queue + over.roused))
    × ((over.running ≡ true) ⊎ (over.waiting ≡ 0))
    × ((over.max_queue_size ≡ 0) ⊎ (length over.queue ≤ over.max_queue_size))
unfolding start
Steps-woken_example = Steps-woken 1 1 started over refl over-Steps

Steps-order_example :
    (over.accepted ≡ over.taken ++ over.queue)
    × (over.threads
        ≡ over.testing + over.taking + over.waiting + over.woken + over.calling + over.ended)
unfolding start
Steps-order_example = Steps-order 1 1 started over refl over-Steps
