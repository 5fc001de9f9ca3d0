-- ===== src/Examples/Idle/Shutdown.antt =====
-- The events between the last message of a connection and its end.
use pallette.Base.{
  ℕ, suc, ◌+◌, ◌≤◌, ◌<◌, ◌≡◌, refl, ap, subst, Bool, true, false, ◌||◌, inl, inr, List, [], ◌∷◌,
  ◌++◌, Option, some, arith,
}
use pallette.Base.Tests.{◌==◌, Bool-cases}
use pallette.Base.Lists.{All, length}
use pallette.Buffer.{◌>>=◌}
use pallette.Examples.Idle.{
  EchoServer, has, lock, insert_back, with_back, on_connection, on_message, on_time, Event,
  connection, message, time, gone, step, run,
}
use pallette.Examples.Idle.Wheel.{
  Held, Bool-clash, insert_back-Held, insert_back-keeps, Held-length, Held-lock,
}
use pallette.Examples.Idle.Timer.{buckets, server, on_time-Held, on_time-last}

abbrev pub IsRunning : EchoServer → Type 0
IsRunning s =
    (0 < length s.connection_buckets.buffer)
    × (length s.connection_buckets.buffer ≤ s.connection_buckets.max_size)

-- Events that are not of the connection `x`, and the number of those that are the timer's.
abbrev IsOther : ℕ → Event → Type 0
IsOther x (connection up y) = (x == y) ≡ false
IsOther x (message y) = (x == y) ≡ false
IsOther x time = Unit
IsOther x (gone y) = (x == y) ≡ false

abbrev ticks : List Event → ℕ
ticks [] = 0
ticks (connection up y ∷ es) = ticks es
ticks (message y ∷ es) = ticks es
ticks (time ∷ es) = suc (ticks es)
ticks (gone y ∷ es) = ticks es

abbrev after : Event → ℕ → ℕ
after (connection up y) k = k
after (message y) k = k
after time k = suc k
after (gone y) k = k

module _ (m x : ℕ) where
  -- The connection is not shut down, and its entry stands `k` buckets from the back.
  abbrev Stays : (k : ℕ) → Option (List ℕ × EchoServer) → Type 0
  Stays k o =
      (out : List ℕ) × (d : ℕ → Bool) × (bs : List (List ℕ)) × (o ≡ some (out, server m d bs))
      × (has x out ≡ false)
      × (d x ≡ false)
      × Held x k bs
      × (length bs ≤ m)

  inserts-Stays :
      (y k : ℕ) (d : ℕ → Bool) (bs : List (List ℕ))
      → (x == y) ≡ false
      → d x ≡ false
      → Held x k bs
      → length bs ≤ m
      → Stays k (with_back (server m d bs) y >>= λ s. some ([], s))
  unfolding with_back has
  inserts-Stays y k d bs n g h l =
      let (bs', e, l', o, keep) =
        insert_back-keeps x y bs n (omega (arith, Held-length x k bs h)) in
      ([], d, bs', rw e refl, refl, g, keep k h, omega (arith, l', l))

  -- One event of another connection, or the timer before its time.
  step-Stays :
      (e : Event) (k : ℕ) (d : ℕ → Bool) (bs : List (List ℕ))
      → IsOther x e
      → d x ≡ false
      → Held x k bs
      → length bs ≤ m
      → after e k < m
      → Stays (after e k) (step (server m d bs) e)
  unfolding step on_connection on_message has
  step-Stays (connection true y) k d bs n g h l f = inserts-Stays y k d bs n g h l
  step-Stays (connection false y) k d bs n g h l f = ([], d, bs, refl, refl, g, h, l)
  step-Stays (message y) k d bs n g h l f = elim (Bool-cases (lock y bs)) [
    | inl p ↦ rw p (inserts-Stays y k d bs n g h l)
    | inr p ↦ rw p ([], d, bs, refl, refl, g, h, l)
  ]
  step-Stays time k d bs n g h l f =
      let (out, bs', e, o, h', l') = on_time-Held m d x k bs h l f in
      (out, d, bs', ap some e, o, g, h', l')
  step-Stays (gone y) k d bs n g h l f = ([], (λ z. (z == y) || d z), bs, refl, refl, rw n g, h, l)

  run-Stays :
      (es : List Event) (k : ℕ) (d : ℕ → Bool) (bs : List (List ℕ))
      → All (IsOther x) es
      → d x ≡ false
      → Held x k bs
      → length bs ≤ m
      → ticks es + k < m
      → Stays (ticks es + k) (run (server m d bs) es)
  unfolding run has
  run-Stays [] k d bs n g h l f =
      ([], d, bs, refl, refl, g, subst (λ k. Held x k bs) (omega arith) h, l)
  run-Stays (e ∷ es) k d bs (n, ns) g h l f =
      let c = ticks-cons e es k in
      let (out, d1, bs1, e1, o1, g1, h1, l1) = step-Stays e k d bs n g h l (omega (arith, f, c)) in
      let (out', d2, bs2, e2, o2, g2, h2, l2) =
        run-Stays es (after e k) d1 bs1 ns g1 h1 l1 (omega (arith, f, c)) in
      (
        out ++ out',
        d2,
        bs2,
        rw (e1, e2) refl,
        has-append out out' o1 o2,
        g2,
        subst (λ k. Held x k bs2) c h2,
        l2,
      )
    where
      ticks-cons : (e : Event) (es : List Event) (k : ℕ) → ticks es + after e k ≡ ticks (e ∷ es) + k
      ticks-cons (connection up y) es k = refl
      ticks-cons (message y) es k = refl
      ticks-cons time es k = omega arith
      ticks-cons (gone y) es k = refl

      has-append : (xs ys : List ℕ) → has x xs ≡ false → has x ys ≡ false → has x (xs ++ ys) ≡ false
      has-append [] ys p q = q
      has-append (z ∷ xs) ys p q = elim (Bool-cases (x == z)) [
        | inl r ↦ Bool-clash refl (subst (λ b. (b || has x xs) ≡ false) r p)
        | inr r ↦ rw r (has-append xs ys (subst (λ b. (b || has x xs) ≡ false) r p) q)
      ]

-- The connection comes up, or a message of it arrives while it has its entry.
abbrev pub IsActivity : EchoServer → ℕ → Event → Type 0
IsActivity s x (connection up y) = (up ≡ true) × (y ≡ x)
IsActivity s x (message y) = (lock x (buckets s) ≡ true) × (y ≡ x)
IsActivity s x time = ⊥
IsActivity s x (gone y) = ⊥

-- The entry is inserted at the back, and the events follow.
run-inserted :
    (s : EchoServer) (x : ℕ) (es : List Event)
    → IsRunning s
    → s.expired x ≡ false
    → All (IsOther x) es
    → suc (ticks es) ≡ s.connection_buckets.max_size
    → (bs : List (List ℕ)) × (out : List ℕ) × (s' : EchoServer) × (insert_back x (buckets s)
        ≡ some bs)
      × (run (server s.connection_buckets.max_size s.expired bs) es ≡ some (out, s'))
      × (has x out ≡ false)
      × (lock x (buckets s') ≡ true)
      × (has x (on_time s').0 ≡ true)
      × (lock x (buckets (on_time s').1) ≡ false)
run-inserted s x es (p, q) g n t =
    let (bs, e, h, l) = insert_back-Held x (buckets s) p in
    let m = s.connection_buckets.max_size in
    let (out, d', bs', e', o, g', h', l') =
      run-Stays m x es 0 s.expired bs n g h (omega (arith, l, q)) (omega (arith, t)) in
    let (u, v) = on_time-last m d' x (ticks es + 0) bs' h' l' (omega (arith, t)) g' in
    (bs, out, server m d' bs', e, e', o, Held-lock x _ bs' h', u, v)

-- From a sign of life of a connection on, while the timer runs fewer times than there are buckets
-- and everything else that happens is other connections', the connection is not shut down by the
-- server; when the timer then runs once more, it is, and its entry is gone. So a connection is shut
-- down by the last of `max_size` runs of the timer without a message.
pub run-activity :
    (s : EchoServer) (x : ℕ) (e : Event) (es : List Event)
    → IsRunning s
    → IsActivity s x e
    → s.expired x ≡ false
    → All (IsOther x) es
    → suc (ticks es) ≡ s.connection_buckets.max_size
    → (out : List ℕ) × (s' : EchoServer) × (run s (e ∷ es) ≡ some (out, s'))
      × (has x out ≡ false)
      × (lock x (buckets s') ≡ true)
      × (has x (on_time s').0 ≡ true)
      × (lock x (buckets (on_time s').1) ≡ false)
unfolding run step on_connection on_message with_back
run-activity s x (connection up y) es r (a, b) g n t =
    let (bs, out, s', e, e', o, k, u, v) = run-inserted s x es r g n t in
    (out, s', rw (a, b, e, e') refl, o, k, u, v)
run-activity s x (message y) es r (a, b) g n t =
    let (bs, out, s', e, e', o, k, u, v) = run-inserted s x es r g n t in
    (out, s', rw (b, a, e, e') refl, o, k, u, v)
run-activity s x time es r a g n t = absurd a
run-activity s x (gone y) es r a g n t = absurd a
