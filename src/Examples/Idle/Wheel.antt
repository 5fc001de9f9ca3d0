-- ===== src/Examples/Idle/Wheel.antt =====
-- A connection is shut down when the timer has run as often as there are buckets since its last
-- message, and not before.
use pallette.Base.{
  ℕ, suc, ◌<◌, ◌≡◌, refl, ap, ◌∙◌, subst, Bool, true, false, ◌||◌, inl, inr, ◌⊎◌, List, [], ◌∷◌,
  ◌++◌, some, arith,
}
use pallette.Base.Tests.{◌==◌, Bool-cases, ==_iff, ==_refl}
use pallette.Base.Lists.{length, length-append}
use pallette.Examples.Idle.{has, lock, insert, insert_back, destroyed}

-- `k` buckets stand behind the last one that holds the entry.
abbrev pub Held : ℕ → ℕ → List (List ℕ) → Type 0
Held x k [] = ⊥
Held x k (b ∷ bs) = ((has x b ≡ true) × (lock x bs ≡ false) × (length bs ≡ k)) ⊎ Held x k bs

pub Bool-clash {ℓ} : {b : Bool} {A : Type ℓ} → b ≡ true → b ≡ false → A
Bool-clash p q = absurd (cc)

has-insert_self : (x : ℕ) (b : List ℕ) → has x (insert x b) ≡ true
unfolding has insert
has-insert_self x b = elim (Bool-cases (has x b)) [
  | inl h ↦ rw h h
  | inr h ↦ rw (h, ==_refl x) refl
]

has-insert_other : (x y : ℕ) (b : List ℕ) → (x == y) ≡ false → has x (insert y b) ≡ has x b
unfolding has insert
has-insert_other x y b n = elim (Bool-cases (has y b)) [
  | inl h ↦ rw h refl
  | inr h ↦ rw (h, n) refl
]

-- The bucket at the back gets the entry.
pub insert_back-Held :
    (x : ℕ) (bs : List (List ℕ))
    → 0 < length bs
    → (bs' : List (List ℕ)) × (insert_back x bs ≡ some bs')
      × Held x 0 bs'
      × (length bs' ≡ length bs)
unfolding insert_back lock
insert_back-Held x [] h = absurd (omega (arith, h))
insert_back-Held x (b ∷ []) h = (insert x b ∷ [], refl, inl (has-insert_self x b, refl, refl), refl)
insert_back-Held x (b ∷ c ∷ bs) h =
    let (bs', e, held, l) = insert_back-Held x (c ∷ bs) (omega arith) in
    (b ∷ bs', rw e refl, inr held, ap suc l)

-- Another entry changes nothing for this one.
pub insert_back-keeps :
    (x y : ℕ) (bs : List (List ℕ))
    → (x == y) ≡ false
    → 0 < length bs
    → (bs' : List (List ℕ)) × (insert_back y bs ≡ some bs')
      × (length bs' ≡ length bs)
      × (lock x bs' ≡ lock x bs)
      × ((k : ℕ) → Held x k bs → Held x k bs')
unfolding insert_back lock
insert_back-keeps x y [] n h = absurd (omega (arith, h))
insert_back-keeps x y (b ∷ []) n h =
    let e = has-insert_other x y b n in (insert y b ∷ [], refl, refl, rw e refl, λ k. keeps e)
  where
    keeps : {k : ℕ} → has x (insert y b) ≡ has x b → Held x k (b ∷ []) → Held x k (insert y b ∷ [])
    keeps e (inl (p, q, r)) = inl (e ∙ p, q, r)
    keeps e (inr x5) = absurd x5
insert_back-keeps x y (b ∷ c ∷ bs) n h =
    let (bs', e, l, o, keep) = insert_back-keeps x y (c ∷ bs) n (omega arith) in
    (b ∷ bs', rw e refl, ap suc l, rw o refl, λ k. keeps bs' l o (keep k))
  where
    keeps :
        {k : ℕ} (bs' : List (List ℕ))
        → length bs' ≡ length (c ∷ bs)
        → lock x bs' ≡ lock x (c ∷ bs)
        → (Held x k (c ∷ bs) → Held x k bs')
        → Held x k (b ∷ c ∷ bs)
        → Held x k (b ∷ bs')
    keeps bs' l o keep (inl (p, q, r)) = inl (p, o ∙ q, l ∙ r)
    keeps bs' l o keep (inr held) = inr (keep held)

pub Held-length : (x k : ℕ) (bs : List (List ℕ)) → Held x k bs → k < length bs
Held-length x k [] h = absurd h
Held-length x k (b ∷ bs) (inl (p, q, r)) = omega (arith, r)
Held-length x k (b ∷ bs) (inr h) = omega (arith, Held-length x k bs h)

pub Held-lock : (x k : ℕ) (bs : List (List ℕ)) → Held x k bs → lock x bs ≡ true
unfolding lock
Held-lock x k [] h = absurd h
Held-lock x k (b ∷ bs) (inl (p, q, r)) = rw p refl
Held-lock x k (b ∷ bs) (inr h) = elim (Bool-cases (has x b)) [
  | inl p ↦ rw p refl
  | inr p ↦ rw p (Held-lock x k bs h)
]

-- The empty bucket of the timer.
pub lock-add : (x : ℕ) (bs : List (List ℕ)) → lock x (bs ++ ([] ∷ [])) ≡ lock x bs
unfolding lock has
lock-add x [] = refl
lock-add x (b ∷ bs) = rw (lock-add x bs) refl

pub Held-add : (x k : ℕ) (bs : List (List ℕ)) → Held x k bs → Held x (suc k) (bs ++ ([] ∷ []))
Held-add x k [] h = absurd h
Held-add x k (b ∷ bs) (inl (p, q, r)) =
    inl (p, lock-add x bs ∙ q, omega (arith, length-append bs ([] ∷ []), r))
Held-add x k (b ∷ bs) (inr h) = inr (Held-add x k bs h)

-- An entry that another bucket holds stays, one that no other holds goes.
pub has-destroyed :
    (x : ℕ) (expired : ℕ → Bool) (xs : List ℕ) (rest : List (List ℕ))
    → lock x rest ≡ true
    → has x (destroyed expired xs rest) ≡ false
unfolding destroyed has
has-destroyed x expired [] rest h = refl
has-destroyed x expired (y ∷ xs) rest h = elim (Bool-cases (lock y rest || expired y)) [
  | inl p ↦ rw p (has-destroyed x expired xs rest h)
  | inr p ↦ rw (p, differs p) (has-destroyed x expired xs rest h)
]
  where
    locked : x ≡ y → (lock y rest || expired y) ≡ true
    locked e = rw (subst (λ y. lock y rest ≡ true) e h) refl

    differs : (lock y rest || expired y) ≡ false → (x == y) ≡ false
    differs p = elim (Bool-cases (x == y)) [
      | inl e ↦ Bool-clash (locked ((==_iff x y).0 e)) p
      | inr e ↦ e
    ]

pub has-destroyed_last :
    (x : ℕ) (expired : ℕ → Bool) (xs : List ℕ) (rest : List (List ℕ))
    → has x xs ≡ true
    → lock x rest ≡ false
    → expired x ≡ false
    → has x (destroyed expired xs rest) ≡ true
unfolding destroyed has
has-destroyed_last x expired [] rest h n d = Bool-clash h refl
has-destroyed_last x expired (y ∷ xs) rest h n d = elim (Bool-cases (x == y)) [
  | inl e ↦
      let p = (==_iff x y).0 e in
      rw (subst (λ y. (lock y rest || expired y) ≡ false) p (rw (n, d) refl), e) refl
  | inr e ↦
      let i = has-destroyed_last x expired xs rest (subst (λ b. (b || has x xs) ≡ true) e h) n d in
      elim (Bool-cases (lock y rest || expired y)) [ inl p ↦ rw p i | inr p ↦ rw (p, e) i ]
]
