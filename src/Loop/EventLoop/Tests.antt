-- ===== src/Loop/EventLoop/Tests.antt =====
-- A functor that another thread queues while the loop polls, and one that it queues in turn.
use pallette.Base.{true, false, ◌+◌, ◌<◌, ◌≡◌, refl, inl, [], ◌∷◌, ◌++◌, arith}
use pallette.Loop.EventLoop.{
  run_in_loop, EventLoop, new, push, wakeup, begin_loop, test_quit, begin_handling, handle_read,
  begin_calling, queue_in_loop, testing, Reaches, start, begins, tests, pushes, wakes, polls, reads,
  swaps, calls, queues, ends,
}
use pallette.Loop.EventLoop.Queue.{Reaches-order, Reaches-woken}

abbrev at_test : EventLoop
at_test = record new { looping = true; phase = testing }

Reaches-at_test : Reaches [] 0 at_test
unfolding begin_loop
Reaches-at_test = begins start refl refl

abbrev waiting : EventLoop
waiting = wakeup (push (test_quit at_test) 7)

Reaches-waiting : Reaches (7 ∷ []) 0 waiting
Reaches-waiting = wakes (pushes {q = []} 7 (tests Reaches-at_test refl))

abbrev called_first : EventLoop
called_first = record (begin_calling (handle_read (begin_handling waiting))) {
  functors = [];
  called = 7 ∷ [];
}

abbrev queued : EventLoop
queued = record called_first { pending_functors = 8 ∷ []; unread = 1 }

in_turn : queue_in_loop true called_first 8 ≡ queued
unfolding queue_in_loop
in_turn = refl

Reaches-queued : Reaches (7 ∷ 8 ∷ []) 0 queued
unfolding queue_in_loop
Reaches-queued =
    queues {q = 7 ∷ []} 8
      (calls {l = begin_calling (handle_read (begin_handling waiting))} {f = 7}
        (swaps (reads (polls Reaches-waiting refl) refl) refl) refl refl)
      refl

Reaches-order_example : queued.called ++ (queued.functors ++ queued.pending_functors) ≡ 7 ∷ 8 ∷ []
Reaches-order_example = Reaches-order (7 ∷ 8 ∷ []) 0 queued Reaches-queued

abbrev polls_again : EventLoop
polls_again = test_quit (record queued { calling_pending_functors = false; phase = testing })

Reaches-polls_again : Reaches (7 ∷ 8 ∷ []) 0 polls_again
Reaches-polls_again = tests (ends Reaches-queued refl refl) refl

has_pending : (polls_again.pending_functors ≡ []) → ⊥
has_pending e = absurd (ground (arith, e))

Reaches-woken_example : 0 < polls_again.unread + 0
Reaches-woken_example =
    Reaches-woken (7 ∷ 8 ∷ []) 0 polls_again Reaches-polls_again refl (inl has_pending)

run_in_own : run_in_loop true called_first 9 ≡ record called_first { called = 7 ∷ 9 ∷ [] }
unfolding run_in_loop
run_in_own = refl

run_in_other : run_in_loop false at_test 9 ≡ wakeup (push at_test 9)
unfolding run_in_loop queue_in_loop
run_in_other = refl
