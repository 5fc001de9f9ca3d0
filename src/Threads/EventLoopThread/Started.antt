-- ===== src/Threads/EventLoopThread/Started.antt =====
-- What `startLoop` returns, and when it does not.
use pallette.Base.{subst, ◌≡◌, refl, sym, ap, ◌∙◌, Bool, true, false, inl, inr, some, arith, ◌⊎◌}
use pallette.Base.Tests.{some_inj, if◌then◌else◌}
use pallette.Threads.EventLoopThread.{
  Runner, absent, preparing, looping, ended, Owner, outside, testing, asleep, past_wait, returned,
  joining, gone, EventLoopThread, new, start_loop, test, leave, notified, publish, end_loop,
  destroy, leave_join, Step, starts, tests, wakes, leaves, publishes, ends, destroys_unused,
  destroys, joins, Steps, none_left, then_step,
}

-- Where the owner can be while the runner is at a place, and what `loop_` is.
abbrev Fits : Runner → Owner → Type 0
Fits absent o = (o ≡ outside) ⊎ (o ≡ gone)
Fits preparing o = (o ≡ testing) ⊎ (o ≡ asleep)
Fits looping o = (o ≡ testing) ⊎ (o ≡ past_wait) ⊎ (o ≡ returned true) ⊎ (o ≡ joining)
Fits ended o = Unit

abbrev is_looping : Runner → Bool
is_looping absent = false
is_looping preparing = false
is_looping looping = true
is_looping ended = false

abbrev IsSound : EventLoopThread → Type 0
IsSound s = Fits s.runner s.owner × (s.loop ≡ is_looping s.runner)

Fits-test :
    (r : Runner) (l : Bool)
    → Fits r testing
    → l ≡ is_looping r
    → Fits r (if l then past_wait else asleep)
Fits-test absent l h e = absurd (ground (arith, h))
Fits-test preparing l h e = rw e (inr refl)
Fits-test looping l h e = rw e (inr (inl refl))
Fits-test ended l h e = tt

Fits-wake : (r : Runner) → Fits r asleep → Fits r testing
Fits-wake absent h = absurd (ground (arith, h))
Fits-wake preparing h = inl refl
Fits-wake looping h = inl refl
Fits-wake ended h = tt

Fits-leave : (r : Runner) (l : Bool) → Fits r past_wait → l ≡ is_looping r → Fits r (returned l)
Fits-leave absent l h e = absurd (ground (arith, h))
Fits-leave preparing l h e = absurd (ground (arith, h))
Fits-leave looping l h e = rw e (inr (inr (inl refl)))
Fits-leave ended l h e = tt

Fits-publish : (o : Owner) → Fits preparing o → Fits looping (notified o)
Fits-publish o (inl e) = rw e (inl refl)
Fits-publish o (inr e) = rw e (inl refl)

Fits-destroy :
    (r : Runner) (l k : Bool)
    → Fits r (returned k)
    → l ≡ is_looping r
    → Fits r (if l then joining else gone)
Fits-destroy absent l k h e = rw e (inr refl)
Fits-destroy preparing l k h e = absurd (ground (arith, h))
Fits-destroy looping l k h e = rw e (inr (inr (inr refl)))
Fits-destroy ended l k h e = tt

Fits-unused :
    (r : Runner) (l : Bool)
    → Fits r outside
    → l ≡ is_looping r
    → Fits r (if l then joining else gone)
Fits-unused absent l h e = rw e (inr refl)
Fits-unused preparing l h e = absurd (ground (arith, h))
Fits-unused looping l h e = absurd (ground (arith, h))
Fits-unused ended l h e = tt

at_owner : (s : EventLoopThread) (o : Owner) → s.owner ≡ o → Fits s.runner s.owner → Fits s.runner o
at_owner s o e h = subst (Fits s.runner) e h

IsSound-start_loop :
    (r : Runner) (s t : EventLoopThread)
    → s.loop ≡ is_looping r
    → start_loop (record s { runner = r }) ≡ some t
    → IsSound t
unfolding start_loop
IsSound-start_loop absent s t h e = subst IsSound (some_inj e) (inl refl, h)
IsSound-start_loop preparing s t h e = absurd (ground (arith, e))
IsSound-start_loop looping s t h e = absurd (ground (arith, e))
IsSound-start_loop ended s t h e = absurd (ground (arith, e))

IsSound-destroy :
    (l : Bool) (s : EventLoopThread)
    → Fits s.runner (if l then joining else gone)
    → l ≡ is_looping s.runner
    → IsSound (destroy (record s { loop = l }))
unfolding destroy
IsSound-destroy true s h e = (h, e)
IsSound-destroy false s h e = (h, e)

IsSound-step : (s t : EventLoopThread) → Step s t → IsSound s → IsSound t
unfolding test leave publish end_loop leave_join
IsSound-step s t (starts a e) (h, l) = IsSound-start_loop s.runner s t l e
IsSound-step s t (tests a) (h, l) = (Fits-test s.runner s.loop (at_owner s testing a h) l, l)
IsSound-step s t (wakes a) (h, l) = (Fits-wake s.runner (at_owner s asleep a h), l)
IsSound-step s t (leaves a) (h, l) = (Fits-leave s.runner s.loop (at_owner s past_wait a h) l, l)
IsSound-step s t (publishes a) (h, l) =
    (Fits-publish s.owner (subst (λ r. Fits r s.owner) a h), refl)
IsSound-step s t (ends a) (h, l) = (tt, refl)
IsSound-step s t (destroys_unused a) (h, l) =
    IsSound-destroy s.loop s (Fits-unused s.runner s.loop (at_owner s outside a h) l) l
IsSound-step s t (destroys {l = k} a) (h, l) =
    IsSound-destroy s.loop s (Fits-destroy s.runner s.loop k (at_owner s (returned k) a h) l) l
IsSound-step s t (joins a b) (h, l) = (subst (λ r. Fits r gone) (sym b) tt, l)

Steps-IsSound : (s : EventLoopThread) → Steps new s → IsSound s
Steps-IsSound s none_left = (inl refl, refl)
Steps-IsSound s (then_step {t = t} r e) = IsSound-step t s e (Steps-IsSound t r)

-- In every state where the thread is in its loop: the owner is not asleep in `startLoop`, and where
-- it is still there, its own next steps return the loop.
pub Steps-returns :
    (s : EventLoopThread)
    → Steps new s
    → s.runner ≡ looping
    → ((s.owner ≡ testing) × (leave (test s) ≡ record s { owner = returned true }))
      ⊎ ((s.owner ≡ past_wait) × (leave s ≡ record s { owner = returned true }))
      ⊎ (s.owner ≡ returned true)
      ⊎ (s.owner ≡ joining)
unfolding test leave
Steps-returns s r a =
    let (h, l) = Steps-IsSound s r in
    let e = l ∙ ap is_looping a in
    elim (subst (λ r. Fits r s.owner) a h) [
      | inl o ↦ inl (o, ap (λ b. record s { owner = returned b }) e)
      | inr (inl o) ↦ inr (inl (o, ap (λ b. record s { owner = returned b }) e))
      | inr (inr (inl o)) ↦ inr (inr (inl o))
      | inr (inr (inr o)) ↦ inr (inr (inr o))
    ]

abbrev pub InWait : EventLoopThread → Type 0
InWait s = (s.owner ≡ testing) ⊎ (s.owner ≡ asleep)

abbrev IsStuck : EventLoopThread → Type 0
IsStuck s = (s.runner ≡ ended) × (s.loop ≡ false) × InWait s
