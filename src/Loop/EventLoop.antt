-- ===== src/Loop/EventLoop.antt =====
-- pallette/EventLoop.cpp: the loop, and what is queued for it. A functor is a number. A write to
-- `wakeupFd_` is counted until it is read. The steps of the loop's thread, and of the others
-- between them, are the constructors of `Reaches`.
pub mod Wakeups
pub mod Sound
pub mod Queue
mod Tests
use pallette.Base.{
  ℕ, zero, suc, ◌+◌, ◌-◌, ◌≡◌, Bool, true, false, List, [], ◌∷◌, ◌++◌, Option, none, some,
}
use pallette.Base.Tests.{if◌then◌else◌}
use pallette.Buffer.{◌>>=◌, ◌>>◌, guard}

-- Where the loop's thread is: outside `loop`, at the test of `quit_`, in the poller, in the
-- callbacks of the channels, or in `doPendingFunctors`.
pub data Phase : Type 0 where
  outside : Phase
  testing : Phase
  polling : Phase
  handling : Phase
  calling : Phase

-- `unread` counts the writes to `wakeupFd_` since it was read, `functors` is the local vector of
-- `doPendingFunctors` from `i` on, and `called` the functors called so far.
pub record EventLoop : Type 0 where
  pub looping : Bool
  pub quitting : Bool
  pub event_handling : Bool
  pub calling_pending_functors : Bool
  pub iteration : ℕ
  pub pending_functors : List ℕ
  pub unread : ℕ
  pub phase : Phase
  pub functors : List ℕ
  pub called : List ℕ

abbrev pub new : EventLoop
new = record {
  looping = false;
  quitting = false;
  event_handling = false;
  calling_pending_functors = false;
  iteration = 0;
  pending_functors = [];
  unread = 0;
  phase = outside;
  functors = [];
  called = [];
}

abbrev pub wakeup : EventLoop → EventLoop
wakeup l = record l { unread = l.unread + 1 }

abbrev pub handle_read : EventLoop → EventLoop
handle_read l = record l { unread = 0 }

-- The locked part of `queueInLoop`.
abbrev pub push : EventLoop → ℕ → EventLoop
push l f = record l { pending_functors = l.pending_functors ++ (f ∷ []) }

-- `own` is `isInLoopThread()`.
unfoldable pub queue_in_loop : (own : Bool) → EventLoop → ℕ → EventLoop
queue_in_loop own l f =
    let pushed = push l f in
    if own then (if l.calling_pending_functors then wakeup pushed else pushed) else wakeup pushed

-- The functor is called at once in the loop's own thread.
unfoldable pub run_in_loop : (own : Bool) → EventLoop → ℕ → EventLoop
run_in_loop own l f =
    if own then record l { called = l.called ++ (f ∷ []) } else queue_in_loop false l f

abbrev pub set_quit : EventLoop → EventLoop
set_quit l = record l { quitting = l.looping }

unfoldable pub quit : (own : Bool) → EventLoop → EventLoop
quit own l = if own then set_quit l else wakeup (set_quit l)

-- `loop` up to its `while`.
unfoldable pub begin_loop : EventLoop → Option EventLoop
begin_loop l =
    guard (if l.looping then false else true)
    >> some (record l { looping = true; quitting = false; phase = testing })

-- The test of the `while`, and what follows the loop.
abbrev pub test_quit : EventLoop → EventLoop
test_quit l =
    if l.quitting
    then record l { looping = false; phase = outside }
    else record l { phase = polling }

-- `poll` returns, and the callbacks of the active channels are next.
abbrev pub begin_handling : EventLoop → EventLoop
begin_handling l = record l { iteration = l.iteration + 1; event_handling = true; phase = handling }

-- The end of the callbacks, and `doPendingFunctors` up to its loop.
abbrev pub begin_calling : EventLoop → EventLoop
begin_calling l = record l {
  event_handling = false;
  calling_pending_functors = true;
  pending_functors = [];
  functors = l.pending_functors;
  phase = calling;
}

-- One round of the loop of `doPendingFunctors`, up to what the functor does.
abbrev pub call_first : EventLoop → List ℕ → Option (ℕ × EventLoop)
call_first l [] = none
call_first l (f ∷ fs) = some (f, record l { functors = fs; called = l.called ++ (f ∷ []) })

abbrev pub call_next : EventLoop → Option (ℕ × EventLoop)
call_next l = call_first l l.functors

abbrev pub end_if_none : EventLoop → List ℕ → Option EventLoop
end_if_none l [] = some (record l { calling_pending_functors = false; phase = testing })
end_if_none l (f ∷ fs) = none

abbrev pub end_calling : EventLoop → Option EventLoop
end_calling l = end_if_none l l.functors

-- A callback of a channel or a functor: the loop's thread runs it.
abbrev pub in_callback : Phase → Bool
in_callback outside = false
in_callback testing = false
in_callback polling = false
in_callback handling = true
in_callback calling = true

-- The states that the steps of all threads lead to in some order, with the functors queued so far,
-- and the number of other threads that have queued or quit and not woken the loop yet.
pub data Reaches : List ℕ → ℕ → EventLoop → Type 0 where
  start : Reaches [] 0 new
  pushes :
      {q : List ℕ} {o : ℕ} {l : EventLoop} (f : ℕ)
      → Reaches q o l
      → Reaches (q ++ (f ∷ [])) (suc o) (push l f)
  sets_quit : {q : List ℕ} {o : ℕ} {l : EventLoop} → Reaches q o l → Reaches q (suc o) (set_quit l)
  wakes : {q : List ℕ} {o : ℕ} {l : EventLoop} → Reaches q (suc o) l → Reaches q o (wakeup l)
  queues :
      {q : List ℕ} {o : ℕ} {l : EventLoop} (f : ℕ)
      → Reaches q o l
      → in_callback l.phase ≡ true
      → Reaches (q ++ (f ∷ [])) o (queue_in_loop true l f)
  quits :
      {q : List ℕ} {o : ℕ} {l : EventLoop}
      → Reaches q o l
      → in_callback l.phase ≡ true
      → Reaches q o (quit true l)
  begins :
      {q : List ℕ} {o : ℕ} {l m : EventLoop}
      → Reaches q o l
      → l.phase ≡ outside
      → begin_loop l ≡ some m
      → Reaches q o m
  tests :
      {q : List ℕ} {o : ℕ} {l : EventLoop}
      → Reaches q o l
      → l.phase ≡ testing
      → Reaches q o (test_quit l)
  polls :
      {q : List ℕ} {o : ℕ} {l : EventLoop}
      → Reaches q o l
      → l.phase ≡ polling
      → Reaches q o (begin_handling l)
  reads :
      {q : List ℕ} {o : ℕ} {l : EventLoop}
      → Reaches q o l
      → l.phase ≡ handling
      → Reaches q o (handle_read l)
  swaps :
      {q : List ℕ} {o : ℕ} {l : EventLoop}
      → Reaches q o l
      → l.phase ≡ handling
      → Reaches q o (begin_calling l)
  calls :
      {q : List ℕ} {o : ℕ} {l m : EventLoop} {f : ℕ}
      → Reaches q o l
      → l.phase ≡ calling
      → call_next l ≡ some (f, m)
      → Reaches q o m
  ends :
      {q : List ℕ} {o : ℕ} {l m : EventLoop}
      → Reaches q o l
      → l.phase ≡ calling
      → end_calling l ≡ some m
      → Reaches q o m
