-- ===== src/Threads/Pool/Stopped.antt =====
-- Which tasks a pool takes, and what it leaves behind when it has stopped.
use pallette.Base.{
  append-nil, ℕ, zero, suc, ◌+◌, ◌≤◌, ◌<◌, ◌≡◌, refl, sym, ap, ◌∙◌, subst, true, false, inl, inr,
  ◌⊎◌, List, [], ◌∷◌, ◌++◌, append_assoc, some, arith,
}
use pallette.Base.Tests.{◌==◌, ltb, Bool-cases, some_inj}
use pallette.Threads.Pool.{
  ThreadPool, new, start, is_full, notify_not_empty, notify_not_full, push, enter_run, run,
  enter_take, test_running, stop, Step, runs, runs_again, tests, takes, takes_again, wakes, returns,
  stops, Steps, none_left, then_step,
}

abbrev busy : ThreadPool → ℕ
busy s = s.testing + s.taking + s.waiting + s.woken + s.calling + s.ended

-- `extra` threads are between two of the states.
abbrev InOrder : (extra : ℕ) → ThreadPool → Type 0
InOrder extra s =
    (s.accepted ≡ s.taken ++ s.queue)
    × (s.threads ≡ busy s + extra)
    × ((s.queue ≡ []) ⊎ (0 < s.threads))

push-InOrder :
    (s : ThreadPool) (t : ℕ) → (s.threads == 0) ≡ false → InOrder 0 s → InOrder 0 (push s t)
unfolding push notify_not_empty
push-InOrder s t n (a, b, c) = go s.waiting refl
  where
    a' : s.accepted ++ (t ∷ []) ≡ s.taken ++ (s.queue ++ (t ∷ []))
    a' = ap (λ l. l ++ (t ∷ [])) a ∙ append_assoc s.taken s.queue (t ∷ [])

    go :
        (n : ℕ)
        → s.waiting ≡ n
        → InOrder 0 (
            notify_not_empty
              (record s { queue = s.queue ++ (t ∷ []); accepted = s.accepted ++ (t ∷ []) })
              n)
    go zero e = (a', b, inr (ground (arith, n)))
    go (suc w) e = (a', omega (arith, b, e), inr (ground (arith, n)))

enter_run-InOrder :
    (s : ThreadPool) (t : ℕ) → (s.threads == 0) ≡ false → InOrder 0 s → InOrder 0 (enter_run s t)
unfolding enter_run
enter_run-InOrder s t n h = elim (Bool-cases (is_full s)) [
  | inl f ↦ rw f h
  | inr f ↦ rw f (push-InOrder s t n h)
]

-- With no threads the caller does the task itself, and the queue is empty.
run-InOrder : (s : ThreadPool) (t : ℕ) → InOrder 0 s → InOrder 0 (run s t)
unfolding run
run-InOrder s t (a, b, c) = elim (Bool-cases (s.threads == 0)) [
  | inl e ↦
      let q : s.queue ≡ [] = (elim c [ inl q ↦ q | inr p ↦ absurd (ground (arith, e, p)) ]) in
      rw e (
        ap (λ l. l ++ (t ∷ [])) (a ∙ ap (λ q. s.taken ++ q) q ∙ append-nil s.taken)
            ∙ sym (append-nil (s.taken ++ (t ∷ [])))
            ∙ ap (λ q. (s.taken ++ (t ∷ [])) ++ q) (sym q),
        b,
        c,
      )
  | inr e ↦ rw e (enter_run-InOrder s t e (a, b, c))
]

enter_take-InOrder :
    (s : ThreadPool) (q : List ℕ) → s.queue ≡ q → InOrder 1 s → InOrder 0 (enter_take s q)
unfolding enter_take notify_not_full
enter_take-InOrder s [] e (a, b, c) = elim (Bool-cases s.running) [
  | inl r ↦ rw r (a, omega (arith, b), c)
  | inr r ↦ rw r (a, omega (arith, b), c)
]
enter_take-InOrder s (t ∷ ts) e (a, b, c) = elim (Bool-cases (ltb 0 s.max_queue_size)) [
  | inl r ↦ rw r (go s.blocked)
  | inr r ↦ rw r (a', b', c')
]
  where
    a' : s.accepted ≡ (s.taken ++ (t ∷ [])) ++ ts
    a' = a ∙ ap (λ q. s.taken ++ q) e ∙ sym (append_assoc s.taken (t ∷ []) ts)

    b' : s.threads ≡ s.testing + s.taking + s.waiting + s.woken + suc s.calling + s.ended + 0
    b' = omega (arith, b)

    c' : (ts ≡ []) ⊎ (0 < s.threads)
    c' = inr (omega (arith, b))

    go :
        (n : ℕ)
        → InOrder 0 (
            notify_not_full
              (record s { queue = ts; taken = s.taken ++ (t ∷ []); calling = suc s.calling })
              n)
    go zero = (a', b', c')
    go (suc n) = (a', b', c')

Step-InOrder : (s t : ThreadPool) → Step s t → InOrder 0 s → InOrder 0 t
unfolding test_running stop
Step-InOrder _ _ (runs s t) h = run-InOrder s t h
Step-InOrder _ _ (runs_again s n t w e) (a, b, c) =
    enter_run-InOrder (record s { roused = n }) t w (a, b, c)
Step-InOrder _ _ (tests s n e) (a, b, c) = elim (Bool-cases s.running) [
  | inl r ↦ rw r (a, omega (arith, b, e), c)
  | inr r ↦ rw r (a, omega (arith, b, e), c)
]
Step-InOrder _ _ (takes s n e) (a, b, c) =
    enter_take-InOrder (record s { taking = n }) s.queue refl (a, omega (arith, b, e), c)
Step-InOrder _ _ (takes_again s n e) (a, b, c) =
    enter_take-InOrder (record s { woken = n }) s.queue refl (a, omega (arith, b, e), c)
Step-InOrder _ _ (wakes s n e) (a, b, c) = (a, omega (arith, b, e), c)
Step-InOrder _ _ (returns s n e) (a, b, c) = (a, omega (arith, b, e), c)
Step-InOrder _ _ (stops s) (a, b, c) = (a, omega (arith, b), c)

Steps-InOrder : (s t : ThreadPool) → Steps s t → InOrder 0 s → InOrder 0 t
Steps-InOrder _ _ (none_left s) h = h
Steps-InOrder _ _ (then_step {s} {t} {u} r e) h = Step-InOrder t u e (Steps-InOrder s t r h)

-- In every order of the steps, the tasks are taken in the order in which they entered the queue,
-- each once, what was not taken is in the queue, and no thread is lost.
pub Steps-order :
    (limit n : ℕ) (s t : ThreadPool)
    → start (new limit) n ≡ some s
    → Steps s t
    → (t.accepted ≡ t.taken ++ t.queue) × (t.threads ≡ busy t)
unfolding start
Steps-order limit n s t e r =
    let (a, b, c) =
      Steps-InOrder s t r (subst (λ s. InOrder 0 s) (some_inj e) (refl, omega arith, inl refl)) in
    (a, omega (arith, b))

-- `stop` has returned, and the queue is full.
abbrev pub IsOver : ThreadPool → Type 0
IsOver s =
    (s.ended ≡ s.threads)
    × (busy s ≡ s.threads)
    × (s.roused ≡ 0)
    × (is_full s ≡ true)
    × (0 < s.threads)
    × (s.running ≡ false)

abbrev Left : ThreadPool → ThreadPool → Type 0
Left s t = (t.queue ≡ s.queue) × (t.taken ≡ s.taken) × (s.blocked ≤ t.blocked)

Step-Left : (s t : ThreadPool) → Step s t → IsOver s → IsOver t × Left s t
unfolding run enter_run stop
Step-Left _ _ (runs s t) (a, b, c, f, p, r) =
    let e : (s.threads == 0) ≡ false = ground (arith, p) in
    rw (e, f) ((a, b, c, f, p, r), (refl, refl, omega arith))
Step-Left _ _ (runs_again s n t w e) (a, b, c, f, p, r) = absurd (omega (arith, c, e))
Step-Left _ _ (tests s n e) (a, b, c, f, p, r) = absurd (omega (arith, a, b, e))
Step-Left _ _ (takes s n e) (a, b, c, f, p, r) = absurd (omega (arith, a, b, e))
Step-Left _ _ (takes_again s n e) (a, b, c, f, p, r) = absurd (omega (arith, a, b, e))
Step-Left _ _ (wakes s n e) (a, b, c, f, p, r) = absurd (omega (arith, a, b, e))
Step-Left _ _ (returns s n e) (a, b, c, f, p, r) = absurd (omega (arith, a, b, e))
Step-Left _ _ (stops s) (a, b, c, f, p, r) =
    ((a, omega (arith, b), c, f, p, refl), (refl, refl, omega arith))

-- When `stop` has returned and the queue is full, no step takes a task out of the queue any more,
-- and no caller that waits in `run` returns.
pub Steps-left :
    (s t : ThreadPool)
    → IsOver s
    → Steps s t
    → (t.queue ≡ s.queue) × (t.taken ≡ s.taken) × (s.blocked ≤ t.blocked) × (t.roused ≡ 0)
Steps-left s t h r = let ((a, b, c, f, p, m), (q, k, l)) = go s t h r in (q, k, l, c)
  where
    go : (s t : ThreadPool) → IsOver s → Steps s t → IsOver t × Left s t
    go _ _ h (none_left s) = (h, (refl, refl, omega arith))
    go _ _ h (then_step {s} {t} {u} r e) =
        let (h', (q, k, l)) = go s t h r in
        let (h2, (q', k', l')) = Step-Left t u e h' in (h2, (q' ∙ q, k' ∙ k, omega (arith, l, l')))
