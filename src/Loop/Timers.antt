-- ===== src/Loop/Timers.antt =====
-- pallette/TimerQueue.h and TimerQueue.cpp, Timer.h and Timer.cpp. A timer is known by a number,
-- its address; a time and an interval are in microseconds, and 0 is the invalid time. `timers` is the set of entries,
-- in its order. `alarms` are the times that the timer descriptor was set to, the newest last. What
-- the callback of a timer does is an argument. `none` is a failed assert.
pub mod Expired
pub mod Cancel
mod Tests
use pallette.Base.{
  ℕ, zero, suc, ◌+◌, ◌-◌, ◌^◌, Bool, true, false, not, ◌&&◌, ◌||◌, List, [], ◌∷◌, ◌++◌, Option,
  none, some,
}
use pallette.Base.Tests.{ltb, leb, ◌==◌, if◌then◌else◌}
use pallette.Base.Lists.{length}
use pallette.Buffer.{◌>>=◌, ◌>>◌, guard}

pub record Timer : Type 0 where
  pub expiration : ℕ
  pub interval : ℕ
  pub repeat : Bool

-- An entry of the set: when, and which timer.
pub record Entry : Type 0 where
  pub when : ℕ
  pub which : ℕ

pub record TimerQueue : Type 0 where
  pub timer : ℕ → Timer
  pub timers : List Entry
  pub wait_timers : List ℕ
  pub active_timers : List ℕ
  pub canceling_timers : List ℕ
  pub free_timers : List ℕ
  pub calling_expired_timers : Bool
  pub alarms : List ℕ

-- The order of pairs.
abbrev pub less : Entry → Entry → Bool
less x y = ltb x.when y.when || ((x.when == y.when) && ltb x.which y.which)

abbrev pub uintptr_max : ℕ
uintptr_max = 2 ^ 64 - 1

abbrev pub mem : ℕ → List ℕ → Bool
mem i [] = false
mem i (x ∷ xs) = (x == i) || mem i xs

-- `erase` of what `find` found; `none` where it found nothing.
pub erase : ℕ → List ℕ → Option (List ℕ)
erase i [] = none
erase i (x ∷ xs) = let rest = erase i xs in if x == i then some xs else rest >>= λ ys. some (x ∷ ys)

-- `std::set::insert` of a new entry; `none` where it is there.
pub insert_entry : Entry → List Entry → Option (List Entry)
insert_entry e [] = some (e ∷ [])
insert_entry e (x ∷ xs) =
    let rest = insert_entry e xs in
    if less e x
    then some (e ∷ x ∷ xs)
    else (if less x e then (rest >>= λ ys. some (x ∷ ys)) else none)

-- `std::set::erase` of an entry; `none` where it is not there.
pub erase_entry : Entry → List Entry → Option (List Entry)
erase_entry e [] = none
erase_entry e (x ∷ xs) =
    let rest = erase_entry e xs in
    if (x.when == e.when) && (x.which == e.which) then some xs else rest >>= λ ys. some (x ∷ ys)

pub earliest : ℕ → List Entry → Bool
earliest when [] = true
earliest when (x ∷ xs) = ltb when x.when

pub insert : TimerQueue → ℕ → Option (Bool × TimerQueue)
insert q i = do
  let when = (q.timer i).expiration
  timers' ← insert_entry (record { when = when; which = i }) q.timers
  some
      (earliest when q.timers, record q { timers = timers'; wait_timers = q.wait_timers ++ i ∷ [] })

pub add_timer_in_loop : TimerQueue → ℕ → Option TimerQueue
add_timer_in_loop q i = do
  (earliest_changed, q') ← insert q i
  some (
      if earliest_changed
      then record q' { alarms = q'.alarms ++ (q'.timer i).expiration ∷ [] }
      else q')

pub cancel_in_loop : TimerQueue → ℕ → Option TimerQueue
cancel_in_loop q i =
    if mem i q.wait_timers
    then (do
      timers' ← erase_entry (record { when = (q.timer i).expiration; which = i }) q.timers
      wait' ← erase i q.wait_timers
      some (record q {
        free_timers = q.free_timers ++ i ∷ [];
        timers = timers';
        wait_timers = wait';
      }))
    else some (
        if q.calling_expired_timers && mem i q.active_timers
        then record q { canceling_timers = q.canceling_timers ++ i ∷ [] }
        else q)

-- The entries before `lower_bound` of the sentry, and those from it on.
abbrev pub before : Entry → List Entry → List Entry
before s [] = []
before s (x ∷ xs) = if less x s then x ∷ before s xs else []

abbrev pub from : Entry → List Entry → List Entry
from s [] = []
from s (x ∷ xs) = if less x s then from s xs else x ∷ xs

-- The loop of `getExpired`.
pub take_out : List Entry → List ℕ → Option (List ℕ)
take_out [] wait = some wait
take_out (x ∷ xs) wait = erase x.which wait >>= λ wait'. take_out xs wait'

abbrev pub which_of : List Entry → List ℕ
which_of [] = []
which_of (x ∷ xs) = x.which ∷ which_of xs

-- `end == timers_.end() || now < end->first`.
abbrev pub past : ℕ → List Entry → Bool
past now [] = true
past now (x ∷ xs) = ltb now x.when

pub get_expired : TimerQueue → ℕ → Option TimerQueue
get_expired q now = do
  let sentry : Entry = record { when = now; which = uintptr_max }
  guard (past now (from sentry q.timers))
  wait' ← take_out (before sentry q.timers) q.wait_timers
  guard (length (from sentry q.timers) == length wait')
  some (record q {
    active_timers = which_of (before sentry q.timers);
    wait_timers = wait';
    timers = from sentry q.timers;
  })

-- `Timer::restart`: a timer that does not repeat gets the invalid time.
pub restart : TimerQueue → ℕ → ℕ → TimerQueue
restart q i now =
    let t = q.timer i in
    let t' = record t { expiration = if t.repeat then now + t.interval else 0 } in
    record q { timer = λ j. if j == i then t' else q.timer j }

-- The loop of `reset`, over the timers that ran.
pub reset_all : TimerQueue → ℕ → List ℕ → Option TimerQueue
reset_all q now [] = some q
reset_all q now (i ∷ is) =
    if (q.timer i).repeat && not (mem i q.canceling_timers)
    then (do (earliest_changed, q') ← insert (restart q i now) i; reset_all q' now is)
    else reset_all (record q { free_timers = q.free_timers ++ i ∷ [] }) now is

pub set_alarm : TimerQueue → TimerQueue
set_alarm q = elim q.timers [
  | [] ↦ q
  | x ∷ xs ↦ if ltb 0 x.when then record q { alarms = q.alarms ++ x.when ∷ [] } else q
]

pub reset : TimerQueue → ℕ → Option TimerQueue
reset q now = reset_all q now q.active_timers >>= λ q'. some (set_alarm q')

-- The callbacks of the timers that expired.
pub run_all : (TimerQueue → ℕ → Option TimerQueue) → TimerQueue → List ℕ → Option TimerQueue
run_all run q [] = some q
run_all run q (i ∷ is) = run q i >>= λ q'. run_all run q' is

pub handle_read : (TimerQueue → ℕ → Option TimerQueue) → TimerQueue → ℕ → Option TimerQueue
handle_read run q now = do
  expired ← get_expired q now
  let calling = record expired { calling_expired_timers = true; canceling_timers = [] }
  ran ← run_all run calling calling.active_timers
  reset (record ran { calling_expired_timers = false }) now
