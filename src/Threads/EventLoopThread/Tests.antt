-- ===== src/Threads/EventLoopThread/Tests.antt =====
-- A loop that is returned, and one that ends before the owner looks.
use pallette.Base.{◌≡◌, refl, true, false, ◌⊎◌, some}
use pallette.Threads.EventLoopThread.{
  EventLoopThread, new, preparing, looping, ended, testing, asleep, past_wait, returned, joining,
  start_loop, test, publish, leave, end_loop, Steps, starts, publishes, ends, none_left, then_step,
}
use pallette.Threads.EventLoopThread.Started.{Steps-returns}

abbrev begun : EventLoopThread
begun = record { loop = false; exiting = false; quits = false; runner = preparing; owner = testing }

begun_lem : start_loop new ≡ some begun
unfolding start_loop
begun_lem = refl

abbrev in_loop : EventLoopThread
in_loop = record begun { loop = true; runner = looping }

to_begun : Steps new begun
to_begun = then_step none_left (starts refl begun_lem)

to_in_loop : Steps new in_loop
unfolding publish
to_in_loop = then_step to_begun (publishes refl)

Steps-returns_example :
    ((in_loop.owner ≡ testing) × (leave (test in_loop) ≡ record in_loop { owner = returned true }))
    ⊎ ((in_loop.owner ≡ past_wait) × (leave in_loop ≡ record in_loop { owner = returned true }))
    ⊎ (in_loop.owner ≡ returned true)
    ⊎ (in_loop.owner ≡ joining)
Steps-returns_example = Steps-returns in_loop to_in_loop refl

abbrev ended_early : EventLoopThread
ended_early = record begun { runner = ended }

abbrev waiting : EventLoopThread
waiting = record ended_early { owner = asleep }

to_ended_early : Steps new ended_early
unfolding end_loop
to_ended_early = then_step to_in_loop (ends refl)
