-- ===== src/Loop/Timers/Cancel.antt =====
-- A timer that is cancelled while it runs.
use pallette.Base.{
  ℕ, ◌≡◌, refl, ap, ◌∙◌, inl, inr, Bool, true, false, not, ◌&&◌, List, [], ◌∷◌, ◌++◌, some,
}
use pallette.Base.Tests.{ltb, ◌==◌, if◌then◌else◌, Bool-cases, ==_refl}
use pallette.Loop.Timers.{Entry, TimerQueue, mem, cancel_in_loop, reset_all, set_alarm, reset}

mem-append : (i : ℕ) (xs : List ℕ) → mem i (xs ++ i ∷ []) ≡ true
mem-append i [] = rw (==_refl i) refl
mem-append i (x ∷ xs) = elim (Bool-cases (x == i)) [
  | inl e ↦ rw e refl
  | inr e ↦ rw e (mem-append i xs)
]

set_alarm-same :
    (q : TimerQueue)
    → ((set_alarm q).free_timers ≡ q.free_timers)
      × ((set_alarm q).canceling_timers ≡ q.canceling_timers)
unfolding set_alarm
set_alarm-same q = go q.timers
  where
    go :
        (xs : List Entry)
        → (let r : TimerQueue = elim xs [
          | [] ↦ q
          | x ∷ xs ↦ if ltb 0 x.when then record q { alarms = q.alarms ++ x.when ∷ [] } else q
        ] in
            (r.free_timers ≡ q.free_timers) × (r.canceling_timers ≡ q.canceling_timers))
    go [] = (refl, refl)
    go (x ∷ xs) = elim (Bool-cases (ltb 0 x.when)) [
      | inl e ↦ rw e (refl, refl)
      | inr e ↦ rw e (refl, refl)
    ]

no_repeat : (b : Bool) → (b && not true) ≡ false
no_repeat true = refl
no_repeat false = refl

cancelled : TimerQueue → ℕ → TimerQueue
cancelled q i = record q { canceling_timers = q.canceling_timers ++ i ∷ [] }

freed : TimerQueue → ℕ → TimerQueue
unfolding cancelled
freed q i = record (cancelled q i) { free_timers = q.free_timers ++ i ∷ [] }

-- A timer that is cancelled from its own callback, the only one that runs, is among the timers
-- being cancelled and among those to free once `reset` has run. The destructor of the queue deletes
-- the timers of both lists.
pub reset-cancel_in_loop :
    (q : TimerQueue) (i now : ℕ)
    → mem i q.wait_timers ≡ false
    → q.calling_expired_timers ≡ true
    → q.active_timers ≡ i ∷ []
    → (q' q'' : TimerQueue) × (cancel_in_loop q i ≡ some q')
      × (reset q' now ≡ some q'')
      × (mem i q''.canceling_timers ≡ true)
      × (mem i q''.free_timers ≡ true)
unfolding cancel_in_loop reset reset_all cancelled freed
reset-cancel_in_loop q i now w c a =
    let (free', canceling') = set_alarm-same (freed q i) in
    (
      cancelled q i,
      set_alarm (freed q i),
      simp (w, c, a, ==_refl i) refl,
      simp (a, mem-append i q.canceling_timers, no_repeat (q.timer i).repeat) refl,
      ap (mem i) canceling' ∙ mem-append i q.canceling_timers,
      ap (mem i) free' ∙ mem-append i q.free_timers,
    )
