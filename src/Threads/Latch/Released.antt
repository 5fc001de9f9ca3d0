-- ===== src/Threads/Latch/Released.antt =====
-- A latch holds its callers until it is counted down, and none after.
use pallette.Base.{
  subst, ℕ, zero, suc, ◌+◌, ◌≤◌, ◌<◌, ◌≡◌, refl, sym, ap, ◌∙◌, true, false, inl, inr, Option, some,
  arith, ◌⊎◌,
}
use pallette.Base.Tests.{ltb_false→le, ltb→lt, ltb, some_inj}
use pallette.Base.Int.{ℤ, pos, negsuc, sub_ℕ}
use pallette.Buffer.{◌>>=◌}
use pallette.Threads.Latch.{
  CountDownLatch, is_positive, decremented, tested, test, count_down, woken, wake, Reaches, starts,
  waits, tests, counts, wakes,
}

-- While the count is positive nobody has passed, and after that nobody waits.
Held : ℤ → (asleep passed : ℕ) → Type 0
Held (pos zero) asleep passed = asleep ≡ 0
Held (pos (suc n)) asleep passed = passed ≡ 0
Held (negsuc n) asleep passed = asleep ≡ 0

abbrev Holds : ℤ → CountDownLatch → Type 0
Holds c s = (s.count ≡ c) × Held s.count s.asleep s.passed

Holds-tested :
    (c : ℤ) (n k a p : ℕ) (t : CountDownLatch)
    → Held c a p
    → tested (record { count = c; testing = k; asleep = a; passed = p }) n ≡ some t
    → Holds c t
unfolding Held
Holds-tested c zero k a p t h e = absurd (ground (arith, e))
Holds-tested (pos zero) (suc n) k a p t h e = subst (Holds (pos zero)) (some_inj e) (refl, h)
Holds-tested (pos (suc c)) (suc n) k a p t h e = subst (Holds (pos (suc c))) (some_inj e) (refl, h)
Holds-tested (negsuc c) (suc n) k a p t h e = subst (Holds (negsuc c)) (some_inj e) (refl, h)

Holds-woken :
    (c : ℤ) (n k p : ℕ) (t : CountDownLatch)
    → Held c n p
    → woken (record { count = c; testing = k; asleep = n; passed = p }) n ≡ some t
    → Holds c t
unfolding Held
Holds-woken c zero k p t h e = absurd (ground (arith, e))
Holds-woken (pos zero) (suc n) k p t h e = absurd (omega (arith, h))
Holds-woken (pos (suc c)) (suc n) k p t h e = subst (Holds (pos (suc c))) (some_inj e) (refl, h)
Holds-woken (negsuc c) (suc n) k p t h e = absurd (omega (arith, h))

Held-count_down :
    (c : ℤ) (k a p : ℕ)
    → Held c a p
    → Holds (decremented c) (count_down (record { count = c; testing = k; asleep = a; passed = p }))
unfolding Held count_down
Held-count_down (pos zero) k a p h = (refl, h)
Held-count_down (pos (suc zero)) k a p h = (refl, refl)
Held-count_down (pos (suc (suc c))) k a p h = (refl, h)
Held-count_down (negsuc c) k a p h = (refl, h)

decremented-sub_ℕ : (n k : ℕ) → decremented (sub_ℕ n k) ≡ sub_ℕ n (suc k)
decremented-sub_ℕ n k = ground arith

sub_zero : (n : ℕ) → pos n ≡ sub_ℕ n 0
sub_zero n = ground arith

Held-start : (n : ℕ) → Held (pos n) 0 0
unfolding Held
Held-start zero = refl
Held-start (suc n) = refl

Reaches-Holds : (n k : ℕ) (s : CountDownLatch) → Reaches n k s → Holds (sub_ℕ n k) s
unfolding test wake
Reaches-Holds n zero s starts = (sub_zero n, Held-start n)
Reaches-Holds n k s (waits {s = t} r) = Reaches-Holds n k t r
Reaches-Holds n k s (tests {s = t} r e) =
    let (c, h) = Reaches-Holds n k t r in
    let (d, h') = Holds-tested t.count t.testing t.testing t.asleep t.passed s h e in (d ∙ c, h')
Reaches-Holds n (suc k) s (counts {s = t} r) =
    let (c, h) = Reaches-Holds n k t r in
    let (d, h') = Held-count_down t.count t.testing t.asleep t.passed h in
    (d ∙ ap decremented c ∙ decremented-sub_ℕ n k, h')
Reaches-Holds n k s (wakes {s = t} r e) =
    let (c, h) = Reaches-Holds n k t r in
    let (d, h') = Holds-woken t.count t.asleep t.testing t.passed s h e in (d ∙ c, h')

is_positive-sub_ℕ : (n k : ℕ) → is_positive (sub_ℕ n k) ≡ ltb k n
is_positive-sub_ℕ n k = ground arith

Held-cases :
    (c : ℤ) (a p : ℕ)
    → Held c a p
    → ((is_positive c ≡ true) × (p ≡ 0)) ⊎ ((is_positive c ≡ false) × (a ≡ 0))
unfolding Held
Held-cases (pos zero) a p h = inr (refl, h)
Held-cases (pos (suc n)) a p h = inl (refl, h)
Held-cases (negsuc n) a p h = inr (refl, h)

-- The tests of as many callers, one after another.
pub test_all : ℕ → CountDownLatch → Option CountDownLatch
test_all zero s = some s
test_all (suc n) s = test s >>= λ t. test_all n t

abbrev counted : ℤ → (testing asleep passed : ℕ) → CountDownLatch
counted c k a p = record { count = c; testing = k; asleep = a; passed = p }

test_all-passed :
    (c : ℤ) (n a p : ℕ)
    → is_positive c ≡ false
    → test_all n (counted c n a p) ≡ some (counted c 0 a (p + n))
unfolding test_all test
test_all-passed c zero a p f = ap (λ q. some (counted c 0 a q)) (omega arith)
test_all-passed c (suc n) a p f =
    rw f (test_all-passed c n a (suc p) f ∙ ap (λ q. some (counted c 0 a q)) (omega arith))

-- In every state of a latch of `n` that was counted down `k` times, whatever the order of the steps:
-- if `k` is less, no caller of `wait` has returned; if not, no caller waits to be woken, and the
-- tests of all that are in `wait` let each of them return.
pub Reaches-released :
    (n k : ℕ) (s : CountDownLatch)
    → Reaches n k s
    → ((k < n) × (s.passed ≡ 0))
      ⊎ ((n ≤ k)
          × (s.asleep ≡ 0)
          × (test_all s.testing s ≡ some (record s { testing = 0; passed = s.passed + s.testing })))
Reaches-released n k s r =
    let (c, h) = Reaches-Holds n k s r in
    let sign = ap is_positive c ∙ is_positive-sub_ℕ n k in
    elim (Held-cases s.count s.asleep s.passed h) [
      | inl (f, g) ↦ inl (ltb→lt k n (sym sign ∙ f), g)
      | inr (f, g) ↦ inr (
        ltb_false→le k n (sym sign ∙ f),
        g,
        test_all-passed s.count s.testing s.asleep s.passed f,
      )
    ]
