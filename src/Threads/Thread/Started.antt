-- ===== src/Threads/Thread/Started.antt =====
-- `start` returns when the thread runs and its id is known.
use pallette.Base.{
  not, subst, ℕ, ◌+◌, ◌<◌, ◌≡◌, refl, Bool, true, false, inl, inr, Option, some, arith, ◌⊎◌,
}
use pallette.Base.Tests.{some_inj, lt→ltb}
use pallette.Buffer.Results.{bind_some, guard-some, guarded}
use pallette.Threads.Latch.{CountDownLatch, wait, test, count_down, wake}
use pallette.Threads.Latch as Latch
use pallette.Threads.Latch.Released.{test_all, Reaches-released}
use pallette.Threads.Thread.{
  Runner, absent, created, identified, running, finished, crashed, Thread, start, leave_start,
  identify, begin, end, join, on_latch, Reaches, makes, starts, identifies, begins, ends, tests,
  wakes, joins,
}

abbrev IsCounted : ℕ → Runner → (started : Bool) (tid : ℕ) → CountDownLatch → Type 0
IsCounted t absent b tid l = Latch.Reaches 1 0 l
IsCounted t created b tid l = Latch.Reaches 1 0 l × (b ≡ true)
IsCounted t identified b tid l = Latch.Reaches 1 0 l × (b ≡ true) × (tid ≡ t)
IsCounted t running b tid l = Latch.Reaches 1 1 l × (b ≡ true) × (tid ≡ t)
IsCounted t finished b tid l = Latch.Reaches 1 1 l × (b ≡ true) × (tid ≡ t)
IsCounted t crashed b tid l = Latch.Reaches 1 1 l × (b ≡ true) × (tid ≡ t)

IsCounted-step :
    (t : ℕ) (r : Runner) (b : Bool) (tid : ℕ) (l m : CountDownLatch)
    → ((k : ℕ) → Latch.Reaches 1 k l → Latch.Reaches 1 k m)
    → IsCounted t r b tid l
    → IsCounted t r b tid m
IsCounted-step t absent b tid l m f h = f 0 h
IsCounted-step t created b tid l m f (h, d) = (f 0 h, d)
IsCounted-step t identified b tid l m f (h, d, e) = (f 0 h, d, e)
IsCounted-step t running b tid l m f (h, d, e) = (f 1 h, d, e)
IsCounted-step t finished b tid l m f (h, d, e) = (f 1 h, d, e)
IsCounted-step t crashed b tid l m f (h, d, e) = (f 1 h, d, e)

IsCounted-idle :
    (t : ℕ) (r : Runner) (tid : ℕ) (l : CountDownLatch)
    → IsCounted t r false tid l
    → (r ≡ absent) × Latch.Reaches 1 0 l
IsCounted-idle t absent tid l h = (refl, h)
IsCounted-idle t created tid l (h, d) = absurd (ground (arith, d))
IsCounted-idle t identified tid l (h, d, e) = absurd (ground (arith, d))
IsCounted-idle t running tid l (h, d, e) = absurd (ground (arith, d))
IsCounted-idle t finished tid l (h, d, e) = absurd (ground (arith, d))
IsCounted-idle t crashed tid l (h, d, e) = absurd (ground (arith, d))

abbrev IsSound : ℕ → Thread → Type 0
IsSound t s = IsCounted t s.runner s.started s.tid s.latch

-- What is known of a thread whose runner is at a place.
at :
    (t : ℕ) (r : Runner) (s : Thread)
    → s.runner ≡ r
    → IsSound t s
    → IsCounted t r s.started s.tid s.latch
at t r s e h = subst (λ r. IsCounted t r s.started s.tid s.latch) e h

IsSound-start :
    (t : ℕ) (is_created : Bool) (b : Bool) (r : Runner) (s u : Thread)
    → IsCounted t r b s.tid s.latch
    → start is_created (record s { started = b; runner = r }) ≡ some u
    → IsSound t u
unfolding start
IsSound-start t is_created true r s u h e = absurd (ground (arith, e))
IsSound-start t true false r s u h e =
    subst (IsSound t) (some_inj e) (Latch.waits (IsCounted-idle t r s.tid s.latch h).1, refl)
IsSound-start t false false r s u h e = subst (IsSound t) (some_inj e) h

IsSound-join : (t : ℕ) (s u : Thread) → IsSound t s → join s ≡ some u → IsSound t u
unfolding join
IsSound-join t s u h e =
    let (started, e') = guard-some s.started _ u e in
    let (fresh, e'') = guarded (not s.joined) _ u e' in subst (IsSound t) e'' h

IsSound-on_latch :
    (t : ℕ) (s u : Thread) (step : CountDownLatch → Option CountDownLatch)
    → ((k : ℕ) (l m : CountDownLatch) → Latch.Reaches 1 k l → step l ≡ some m → Latch.Reaches 1 k m)
    → on_latch step s ≡ some u
    → IsSound t s
    → IsSound t u
unfolding on_latch
IsSound-on_latch t s u step f e h =
    let (m, p, q) = bind_some (step s.latch) _ u e in
    subst (IsSound t) (some_inj q)
      (IsCounted-step t s.runner s.started s.tid s.latch m (λ k r. f k s.latch m r p) h)

Reaches-IsSound : (t : ℕ) (s : Thread) → Reaches t s → IsSound t s
unfolding start identify begin end join
Reaches-IsSound t s (makes name) = Latch.starts
Reaches-IsSound t s (starts {s = p} c r e) =
    IsSound-start t c p.started p.runner p s (Reaches-IsSound t p r) e
Reaches-IsSound t s (identifies {s = p} r a) =
    let (l, d) = at t created p a (Reaches-IsSound t p r) in (l, d, refl)
Reaches-IsSound t s (begins {s = p} r a) =
    let (l, d, e) = at t identified p a (Reaches-IsSound t p r) in (Latch.counts l, d, e)
Reaches-IsSound t s (ends {s = p} true r a) = at t running p a (Reaches-IsSound t p r)
Reaches-IsSound t s (ends {s = p} false r a) = at t running p a (Reaches-IsSound t p r)
Reaches-IsSound t s (tests {s = p} r e) =
    IsSound-on_latch t p s test (λ k l m h q. Latch.tests h q) e (Reaches-IsSound t p r)
Reaches-IsSound t s (wakes {s = p} r e) =
    IsSound-on_latch t p s wake (λ k l m h q. Latch.wakes h q) e (Reaches-IsSound t p r)
Reaches-IsSound t s (joins {s = p} r e) = IsSound-join t p s (Reaches-IsSound t p r) e

abbrev pub HasBegun : Runner → Type 0
HasBegun r = (r ≡ running) ⊎ (r ≡ finished) ⊎ (r ≡ crashed)

-- No caller of `start` waits to be woken, and the tests of those in the latch let them through.
abbrev pub IsPast : Thread → Type 0
IsPast s =
    (s.latch.asleep ≡ 0)
    × (test_all s.latch.testing s.latch
        ≡ some (record s.latch { testing = 0; passed = s.latch.passed + s.latch.testing }))

IsPast-latch : (s : Thread) → Latch.Reaches 1 1 s.latch → IsPast s
IsPast-latch s l = elim (Reaches-released 1 1 s.latch l) [
  | inl (less, p) ↦ absurd (omega (arith, less))
  | inr (le, asleep, go) ↦ (asleep, go)
]

held : (s : Thread) → Latch.Reaches 1 0 s.latch → s.latch.passed ≡ 0
held s l = elim (Reaches-released 1 0 s.latch l) [
  | inl (less, p) ↦ p
  | inr (le, asleep, go) ↦ absurd (omega (arith, le))
]

left : (t : ℕ) (s : Thread) → 0 < t → s.tid ≡ t → leave_start s ≡ some s
unfolding leave_start
left t s h e = rw e (rw (lt→ltb 0 t h) refl)

-- Before the `countDown` of the new thread, or before there is one.
abbrev pub NotBegun : Runner → Type 0
NotBegun r = (r ≡ absent) ⊎ (r ≡ created) ⊎ (r ≡ identified)

-- For a thread whose id is not 0, in every state of it and of its callers: before the thread is past
-- its `countDown`, no caller has left the latch of `start`; and once it is past it, no caller waits
-- to be woken, the tests of all callers that are in the latch let them through, the thread's id is
-- known, and so the assert at the end of `start` holds.
pub Reaches-leave_start :
    (t : ℕ) (s : Thread)
    → 0 < t
    → Reaches t s
    → (NotBegun s.runner × (s.latch.passed ≡ 0))
      ⊎ (HasBegun s.runner × IsPast s × (s.tid ≡ t) × (leave_start s ≡ some s))
Reaches-leave_start t s h r = go s.runner refl (Reaches-IsSound t s r)
  where
    go :
        (r : Runner)
        → s.runner ≡ r
        → IsCounted t r s.started s.tid s.latch
        → (NotBegun s.runner × (s.latch.passed ≡ 0))
          ⊎ (HasBegun s.runner × IsPast s × (s.tid ≡ t) × (leave_start s ≡ some s))
    go absent e l = inl (inl e, held s l)
    go created e (l, d) = inl (inr (inl e), held s l)
    go identified e (l, d, i) = inl (inr (inr e), held s l)
    go running e (l, d, i) = inr (inl e, IsPast-latch s l, i, left t s h i)
    go finished e (l, d, i) = inr (inr (inl e), IsPast-latch s l, i, left t s h i)
    go crashed e (l, d, i) = inr (inr (inr e), IsPast-latch s l, i, left t s h i)
