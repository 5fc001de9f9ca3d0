-- ===== src/Time/Zone/Find.antt =====
-- pallette/TimeZone.cpp, findLocaltime, against a search from the first transition to the last.
use pallette.Base.{
  ℕ, ◌≡◌, refl, ap, Bool, true, false, inl, inr, List, [], ◌∷◌, Option, none, some, arith,
}
use pallette.Base.Tests.{if◌then◌else◌, Bool-cases}
use pallette.Base.Int.{ℤ, ltb_ℤ}
use pallette.Base.Lists.{get_elem?}
use pallette.Buffer.{◌>>=◌}
use pallette.Time.Zone.{
  Transition, Localtime, Data, key, comp, lower_bound, back, chosen, find_localtime,
}

-- The index of the last transition that is not after a time, or `i` where there is none.
abbrev pub last_idx : Bool → ℤ → List Transition → ℕ → ℕ
last_idx gmt s [] i = i
last_idx gmt s (x ∷ xs) i = last_idx gmt s xs (if ltb_ℤ s (key gmt x) then i else x.localtime_idx)

-- Each transition is after a time.
abbrev pub After : Bool → ℤ → List Transition → Type 0
After gmt k [] = Unit {0}
After gmt k (x ∷ xs) = (ltb_ℤ k (key gmt x) ≡ true) × After gmt k xs

-- The times of the transitions rise.
abbrev pub Rises : Bool → List Transition → Type 0
Rises gmt [] = Unit {0}
Rises gmt (x ∷ xs) = After gmt (key gmt x) xs × Rises gmt xs

lt_trans : (a b c : ℤ) → ltb_ℤ b a ≡ false → ltb_ℤ b c ≡ true → ltb_ℤ a c ≡ true
lt_trans a b c h k = ground arith

last_idx-After :
    (gmt : Bool) (s k : ℤ) (xs : List Transition) (i : ℕ)
    → ltb_ℤ k s ≡ false
    → After gmt k xs
    → last_idx gmt s xs i ≡ i
last_idx-After gmt s k [] i h a = refl
last_idx-After gmt s k (x ∷ xs) i h (l, a) =
    rw (lt_trans s k (key gmt x) h l) (last_idx-After gmt s k xs i h a)

not_both : (a b : ℤ) → ltb_ℤ a b ≡ true → ltb_ℤ b a ≡ false
not_both a b h = ground arith

module _ (ls : List Localtime) (gmt : Bool) (sentry : Transition) where
  -- `findLocaltime` from where it searches.
  abbrev found :
      Transition → List Transition → Option Transition × Option Transition → Option Localtime
  found f r p = chosen gmt f r sentry p >>= λ t. get_elem? ls t.localtime_idx

  -- The transition that the search stops at, not before the time.
  stop_lem :
      (f : Transition) (r : List Transition) (b x : Transition) (xs : List Transition)
      → comp gmt x sentry ≡ false
      → After gmt (key gmt x) xs
      → found f r (some b, some x)
        ≡ get_elem? ls (last_idx gmt (key gmt sentry) (x ∷ xs) b.localtime_idx)
  unfolding chosen
  stop_lem f r b x xs c a = elim (Bool-cases (ltb_ℤ (key gmt sentry) (key gmt x))) [
    | inl y ↦ rw (y, last_idx-After gmt (key gmt sentry) (key gmt x) xs b.localtime_idx c a) refl
    | inr n ↦ rw (n, c, last_idx-After gmt (key gmt sentry) (key gmt x) xs x.localtime_idx c a) refl
  ]

  search_lem :
      (f : Transition) (r : List Transition) (b : Transition) (xs : List Transition)
      → back f r ≡ back b xs
      → Rises gmt xs
      → found f r (lower_bound gmt sentry (some b) xs)
        ≡ get_elem? ls (last_idx gmt (key gmt sentry) xs b.localtime_idx)
  unfolding lower_bound chosen back
  search_lem f r b [] e s = ap (λ t. get_elem? ls t.localtime_idx) e
  search_lem f r b (x ∷ xs) e (a, s) = elim (Bool-cases (comp gmt x sentry)) [
    | inl y ↦ rw (y, not_both (key gmt x) (key gmt sentry) y) (search_lem f r x xs e s)
    | inr n ↦ rw n (stop_lem f r b x xs n a)
  ]

  -- The first transition is not after the time.
  first_lem :
      (x : Transition) (xs : List Transition)
      → comp gmt sentry x ≡ false
      → After gmt (key gmt x) xs
      → Rises gmt xs
      → found x xs (lower_bound gmt sentry none (x ∷ xs))
        ≡ get_elem? ls (last_idx gmt (key gmt sentry) xs x.localtime_idx)
  unfolding lower_bound back chosen
  first_lem x xs c a s = elim (Bool-cases (comp gmt x sentry)) [
    | inl y ↦ rw y (search_lem x xs x xs refl s)
    | inr n ↦
        rw (n, c, last_idx-After gmt (key gmt sentry) (key gmt x) xs x.localtime_idx n a)
          (rw n refl)
  ]

-- On transitions whose times rise, in UTC or as local times, `findLocaltime` returns the local time
-- of the last transition that is not after the time, and the first local time where there is none.
pub find_localtime_lem :
    (d : Data) (sentry : Transition) (gmt : Bool)
    → Rises gmt d.transitions
    → find_localtime d sentry gmt
      ≡ get_elem? d.localtimes (last_idx gmt (key gmt sentry) d.transitions 0)
unfolding find_localtime
find_localtime_lem d sentry gmt s = go d.transitions s
  where
    go :
        (ts : List Transition)
        → Rises gmt ts
        → (elim ts [
          | [] ↦ get_elem? d.localtimes 0
          | x ∷ xs ↦
              if comp gmt sentry x
              then get_elem? d.localtimes 0
              else chosen gmt x xs sentry (lower_bound gmt sentry none (x ∷ xs)) >>= λ t.
                  get_elem? d.localtimes t.localtime_idx
        ])
          ≡ get_elem? d.localtimes (last_idx gmt (key gmt sentry) ts 0)
    go [] s = refl
    go (x ∷ xs) (a, s) = elim (Bool-cases (comp gmt sentry x)) [
      | inl y ↦
          rw
            (
              y,
              last_idx-After gmt (key gmt sentry) (key gmt x) xs 0
                  (not_both (key gmt sentry) (key gmt x) y) a,
            )
            refl
      | inr n ↦ rw n (first_lem d.localtimes gmt sentry x xs n a s)
    ]
