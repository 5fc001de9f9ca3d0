-- ===== src/Examples/Idle/Timer.antt =====
-- What the timer does to an entry.
use pallette.Base.{
  ℕ, suc, ◌≤◌, ◌<◌, ◌≡◌, refl, ap, ◌∙◌, Bool, true, false, inl, inr, List, [], ◌∷◌, ◌++◌, arith,
}
use pallette.Base.Tests.{◌==◌, ltb, Bool-cases, ltb→lt, lt→ltb, ltb_false→le, le→ltb_false}
use pallette.Base.Lists.{length, length-append}
use pallette.Queue.{push_back}
use pallette.Examples.Idle.{EchoServer, has, lock, destroyed, dropped, on_time}
use pallette.Examples.Idle.Wheel.{
  Held, Held-length, Held-lock, Held-add, lock-add, has-destroyed, has-destroyed_last,
}

abbrev pub buckets : EchoServer → List (List ℕ)
buckets s = s.connection_buckets.buffer

abbrev pub server : ℕ → (ℕ → Bool) → List (List ℕ) → EchoServer
server m d bs = record { connection_buckets = record { max_size = m; buffer = bs }; expired = d }

-- The timer while the deque is not full, and when it is.
module _ (m : ℕ) (d : ℕ → Bool) where
  on_time_grow :
      (bs : List (List ℕ))
      → length bs < m
      → on_time (server m d bs) ≡ ([], server m d (bs ++ ([] ∷ [])))
  unfolding on_time push_back dropped destroyed
  on_time_grow bs l =
      let n : (length bs == m) ≡ false = ground arith in rw (n, lt→ltb (length bs) m l) refl

  on_time_turn :
      (b : List ℕ) (bs : List (List ℕ))
      → suc (length bs) ≡ m
      → on_time (server m d (b ∷ bs))
        ≡ (destroyed d b (bs ++ ([] ∷ [])), server m d (bs ++ ([] ∷ [])))
  unfolding on_time push_back dropped
  on_time_turn b bs e =
      let n : (suc (length bs) == m) ≡ true = ground arith in
      rw (n, le→ltb_false (suc (length bs)) m (omega (arith, e))) refl

  module _ (x k : ℕ) where
    -- The entry stays one bucket further from the back, until `m` buckets have been added.
    pub on_time-Held :
        (bs : List (List ℕ))
        → Held x k bs
        → length bs ≤ m
        → suc k < m
        → (out : List ℕ) × (bs' : List (List ℕ)) × (on_time (server m d bs) ≡ (out, server m d bs'))
          × (has x out ≡ false)
          × Held x (suc k) bs'
          × (length bs' ≤ m)
    unfolding has
    on_time-Held bs h l f = elim (Bool-cases (ltb (length bs) m)) [
      | inl p ↦ (
        [],
        bs ++ ([] ∷ []),
        on_time_grow bs (ltb→lt _ _ p),
        refl,
        Held-add x k bs h,
        omega (arith, length-append bs ([] ∷ []), ltb→lt _ _ p),
      )
      | inr p ↦ turned bs h (omega (arith, l, ltb_false→le _ _ p))
    ]
      where
        turned :
            (bs : List (List ℕ))
            → Held x k bs
            → length bs ≡ m
            → (out : List ℕ) × (bs' : List (List ℕ)) × (on_time (server m d bs)
                ≡ (out, server m d bs'))
              × (has x out ≡ false)
              × Held x (suc k) bs'
              × (length bs' ≤ m)
        turned [] h e = absurd h
        turned (b ∷ bs) (inl (p, q, r)) e = absurd (omega (arith, r, e, f))
        turned (b ∷ bs) (inr h) e =
            let h' = Held-add x k bs h in
            (
              destroyed d b (bs ++ ([] ∷ [])),
              bs ++ ([] ∷ []),
              on_time_turn b bs e,
              has-destroyed x d b (bs ++ ([] ∷ [])) (Held-lock x (suc k) _ h'),
              h',
              omega (arith, length-append bs ([] ∷ []), e),
            )

    pub on_time-last :
        (bs : List (List ℕ))
        → Held x k bs
        → length bs ≤ m
        → suc k ≡ m
        → d x ≡ false
        → (has x (on_time (server m d bs)).0 ≡ true)
          × (lock x (buckets (on_time (server m d bs)).1) ≡ false)
    on_time-last [] h l f g = absurd h
    on_time-last (b ∷ bs) (inr h) l f g = absurd (omega (arith, Held-length x k bs h, l, f))
    on_time-last (b ∷ bs) (inl (p, q, r)) l f g =
        let e = on_time_turn b bs (omega (arith, r, f)) in
        let n = lock-add x bs ∙ q in
        (
          ap (λ o. has x o.0) e ∙ has-destroyed_last x d b (bs ++ ([] ∷ [])) p n g,
          ap (λ o. lock x (buckets o.1)) e ∙ n,
        )
