-- ===== src/Threads/Pool/Woken.antt =====
-- No task waits for a thread that nobody woke, and no caller for room that is there.
use pallette.Base.{
  ℕ, zero, suc, ◌+◌, ◌≤◌, ◌<◌, ◌≡◌, refl, ap, subst, true, false, inl, inr, ◌⊎◌, List, [], ◌∷◌,
  ◌++◌, some, arith,
}
use pallette.Base.Tests.{◌==◌, ltb, Bool-cases, some_inj}
use pallette.Base.Lists.{length, length-append}
use pallette.Threads.Pool.{
  ThreadPool, new, start, is_full, notify_not_empty, notify_not_full, push, enter_run, run,
  enter_take, test_running, stop, Step, runs, runs_again, tests, takes, takes_again, wakes, returns,
  stops, Steps, none_left, then_step,
}

-- `spare`: a thread that was woken is in `take`.
abbrev IsAwake : (spare room : ℕ) → ThreadPool → Type 0
IsAwake spare room s =
    ((s.waiting ≡ 0) ⊎ (length s.queue ≤ s.woken + spare))
    × ((s.blocked ≡ 0)
        ⊎ ((0 < s.max_queue_size) × (s.max_queue_size ≤ length s.queue + s.roused + room)))
    × ((s.running ≡ true) ⊎ (s.waiting ≡ 0))
    × ((s.max_queue_size ≡ 0) ⊎ (length s.queue ≤ s.max_queue_size))

abbrev HasRoom : ThreadPool → Type 0
HasRoom s = (s.max_queue_size ≡ 0) ⊎ (length s.queue < s.max_queue_size)

HasRoom-is_full : (s : ThreadPool) → is_full s ≡ false → HasRoom s
HasRoom-is_full s f = ground (arith, f)

is_full_lem :
    (s : ThreadPool)
    → is_full s ≡ true
    → (0 < s.max_queue_size) × (s.max_queue_size ≤ length s.queue)
is_full_lem s f = ground (arith, f)

push-IsAwake : (s : ThreadPool) (t : ℕ) → is_full s ≡ false → IsAwake 0 1 s → IsAwake 0 0 (push s t)
unfolding push notify_not_empty
push-IsAwake s t f (a, b, c, d) = go s.waiting refl
  where
    l : length (s.queue ++ (t ∷ [])) ≡ suc (length s.queue)
    l = omega (arith, length-append s.queue (t ∷ []))

    b' :
        (s.blocked ≡ 0)
        ⊎ ((0 < s.max_queue_size)
            × (s.max_queue_size ≤ length (s.queue ++ (t ∷ [])) + s.roused + 0))
    b' = ground (arith, b, l)

    d' : (s.max_queue_size ≡ 0) ⊎ (length (s.queue ++ (t ∷ [])) ≤ s.max_queue_size)
    d' = ground (arith, HasRoom-is_full s f, l)

    go :
        (n : ℕ)
        → s.waiting ≡ n
        → IsAwake 0 0 (
            notify_not_empty
              (record s { queue = s.queue ++ (t ∷ []); accepted = s.accepted ++ (t ∷ []) })
              n)
    go zero e = (inl e, b', c, d')
    go (suc n) e = (inr (ground (arith, a, e, l)), b', ground (arith, c, e), d')

-- `room`: a caller that was woken is in `run`.
enter_run-IsAwake : (s : ThreadPool) (t : ℕ) → IsAwake 0 1 s → IsAwake 0 0 (enter_run s t)
unfolding enter_run
enter_run-IsAwake s t (a, b, c, d) = elim (Bool-cases (is_full s)) [
  | inl f ↦ let (p, q) = is_full_lem s f in rw f (a, inr (p, omega (arith, q)), c, d)
  | inr f ↦ rw f (push-IsAwake s t f (a, b, c, d))
]

run-IsAwake : (s : ThreadPool) (t : ℕ) → IsAwake 0 0 s → IsAwake 0 0 (run s t)
unfolding run
run-IsAwake s t (a, b, c, d) = elim (Bool-cases (s.threads == 0)) [
  | inl e ↦ rw e (a, b, c, d)
  | inr e ↦ rw e (enter_run-IsAwake s t (a, ground (arith, b), c, d))
]

enter_take-IsAwake :
    (s : ThreadPool) (q : List ℕ) → s.queue ≡ q → IsAwake 1 0 s → IsAwake 0 0 (enter_take s q)
unfolding enter_take notify_not_full
enter_take-IsAwake s [] e (a, b, c, d) = elim (Bool-cases s.running) [
  | inl r ↦ rw r (inr (omega (arith, ap length e)), b, inl refl, d)
  | inr r ↦ rw r (ground (arith, c, r), b, ground (arith, c, r), d)
]
enter_take-IsAwake s (t ∷ ts) e (a, b, c, d) = elim (Bool-cases (ltb 0 s.max_queue_size)) [
  | inl r ↦ rw r (go s.blocked refl)
  | inr r ↦ rw r (ground (arith, a, l), ground (arith, b, r), c, ground (arith, r))
]
  where
    l : length s.queue ≡ suc (length ts)
    l = ap length e

    go :
        (n : ℕ)
        → s.blocked ≡ n
        → IsAwake 0 0 (
            notify_not_full
              (record s { queue = ts; taken = s.taken ++ (t ∷ []); calling = suc s.calling })
              n)
    go zero f = (ground (arith, a, l), inl f, c, ground (arith, d, l))
    go (suc n) f = (ground (arith, a, l), inr (ground (arith, b, f, l)), c, ground (arith, d, l))

Step-IsAwake : (s t : ThreadPool) → Step s t → IsAwake 0 0 s → IsAwake 0 0 t
unfolding test_running stop
Step-IsAwake _ _ (runs s t) h = run-IsAwake s t h
Step-IsAwake _ _ (runs_again s n t w e) (a, b, c, d) =
    enter_run-IsAwake (record s { roused = n }) t (a, ground (arith, b, e), c, d)
Step-IsAwake _ _ (tests s n e) (a, b, c, d) = elim (Bool-cases s.running) [
  | inl r ↦ rw r (a, b, inl refl, d)
  | inr r ↦ rw r (a, b, ground (arith, c, r), d)
]
Step-IsAwake _ _ (takes s n e) (a, b, c, d) =
    enter_take-IsAwake (record s { taking = n }) s.queue refl (ground (arith, a), b, c, d)
Step-IsAwake _ _ (takes_again s n e) (a, b, c, d) =
    enter_take-IsAwake (record s { woken = n }) s.queue refl (ground (arith, a, e), b, c, d)
Step-IsAwake _ _ (wakes s n e) (a, b, c, d) =
    (inr (ground (arith, a, e)), b, ground (arith, c, e), d)
Step-IsAwake _ _ (returns s n e) h = h
Step-IsAwake _ _ (stops s) (a, b, c, d) = (inl refl, b, inr refl, d)

Steps-IsAwake : (s t : ThreadPool) → Steps s t → IsAwake 0 0 s → IsAwake 0 0 t
Steps-IsAwake _ _ (none_left s) h = h
Steps-IsAwake _ _ (then_step {s} {t} {u} r e) h = Step-IsAwake t u e (Steps-IsAwake s t r h)

-- In every order of the steps of a pool's threads and of the callers of `run`: when a thread waits
-- in `take`, as many threads as there are tasks in the queue were woken and have not run yet; when
-- a caller waits in `run`, the free places are fewer than the callers that were woken, or as many;
-- after `stop` no thread waits; and a queue that has a limit keeps to it.
pub Steps-woken :
    (limit n : ℕ) (s t : ThreadPool)
    → start (new limit) n ≡ some s
    → Steps s t
    → ((t.waiting ≡ 0) ⊎ (length t.queue ≤ t.woken))
      × ((t.blocked ≡ 0) ⊎ (t.max_queue_size ≤ length t.queue + t.roused))
      × ((t.running ≡ true) ⊎ (t.waiting ≡ 0))
      × ((t.max_queue_size ≡ 0) ⊎ (length t.queue ≤ t.max_queue_size))
unfolding start
Steps-woken limit n s t e r =
    let (a, b, c, d) =
      Steps-IsAwake s t r
        (subst (λ s. IsAwake 0 0 s) (some_inj e) (inl refl, inl refl, inl refl, ground arith)) in
    (ground (arith, a), ground (arith, b), c, d)
