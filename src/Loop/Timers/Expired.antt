-- ===== src/Loop/Timers/Expired.antt =====
-- `getExpired` takes exactly the timers that are due.
use pallette.Base.{
  ℕ, suc, ◌≤◌, ◌<◌, ◌≡◌, refl, sym, ap, ◌∙◌, inl, inr, Bool, true, not, List, [], ◌∷◌, ◌++◌, Option,
  none, some, arith,
}
use pallette.Base.Tests.{
  leb, ◌==◌, if◌then◌else◌, Bool-cases, Option-cases, some_inj, leb_false→lt, lt→leb_false, lt→ltb,
  ==_refl,
}
use pallette.Base.Lists.{length}
use pallette.Buffer.{◌>>=◌}
use pallette.Loop.Timers.{
  Entry, TimerQueue, less, uintptr_max, erase, before, from, take_out, which_of, past, get_expired,
}

abbrev pub filter {ℓ} : {A : Type ℓ} → (A → Bool) → List A → List A
filter p [] = []
filter p (x ∷ xs) = if p x then x ∷ filter p xs else filter p xs

abbrev pub due : ℕ → Entry → Bool
due now x = leb x.when now

abbrev pub later : ℕ → Entry → Bool
later now x = not (leb x.when now)

-- No entry is before a time.
abbrev pub NotBefore : ℕ → List Entry → Type 0
NotBefore w [] = Unit {0}
NotBefore w (x ∷ xs) = (w ≤ x.when) × NotBefore w xs

-- The entries are in the order of their times, and their addresses are below the sentry's.
abbrev pub IsOrdered : List Entry → Type 0
IsOrdered [] = Unit {0}
IsOrdered (x ∷ xs) = (x.which < uintptr_max) × (NotBefore x.when xs × IsOrdered xs)

abbrev pub sentry : ℕ → Entry
sentry now = record { when = now; which = uintptr_max }

less-sentry : (x : Entry) (now : ℕ) → x.which < uintptr_max → less x (sentry now) ≡ due now x
less-sentry x now h = ground arith

none_due :
    (w now : ℕ) (xs : List Entry)
    → now < w
    → NotBefore w xs
    → (filter (due now) xs ≡ []) × (filter (later now) xs ≡ xs)
none_due w now [] h n = (refl, refl)
none_due w now (x ∷ xs) h (l, n) =
    let (a, b) = none_due w now xs h n in
    let k = lt→leb_false x.when now (omega (arith, h, l)) in (rw k a, rw k (ap (◌∷◌ x) b))

split_lem :
    (now : ℕ) (xs : List Entry)
    → IsOrdered xs
    → (before (sentry now) xs ≡ filter (due now) xs)
      × (from (sentry now) xs ≡ filter (later now) xs)
      × (past now (from (sentry now) xs) ≡ true)
split_lem now [] o = (refl, refl, refl)
split_lem now (x ∷ xs) (b, (n, o)) = elim (Bool-cases (leb x.when now)) [
  | inl y ↦ let (p, q, r) = split_lem now xs o in rw (less-sentry x now b, y) (ap (◌∷◌ x) p, q, r)
  | inr k ↦
      let (p, q) = none_due x.when now xs (leb_false→lt _ _ k) n in
      rw (less-sentry x now b, k)
        (sym p, ap (◌∷◌ x) (sym q), lt→ltb now x.when (leb_false→lt _ _ k))
]

take_out-append :
    (xs ys : List Entry) (wait : List ℕ)
    → take_out (xs ++ ys) wait ≡ (take_out xs wait >>= λ w. take_out ys w)
unfolding take_out
take_out-append [] ys wait = refl
take_out-append (x ∷ xs) ys wait = elim (Option-cases (erase x.which wait)) [
  | inl e ↦ rw e refl
  | inr (w, e) ↦ rw e (take_out-append xs ys w)
]

before-from : (s : Entry) (xs : List Entry) → before s xs ++ from s xs ≡ xs
before-from s [] = refl
before-from s (x ∷ xs) = elim (Bool-cases (less x s)) [
  | inl e ↦ rw e (ap (◌∷◌ x) (before-from s xs))
  | inr e ↦ rw e refl
]

erase-length : (i : ℕ) (xs ys : List ℕ) → erase i xs ≡ some ys → length xs ≡ suc (length ys)
unfolding erase
erase-length i [] ys e = absurd cc
erase-length i (x ∷ xs) ys e = elim (Bool-cases (x == i)) [
  | inl y ↦
      let k : some xs ≡ some ys =
        sym (ap (λ b. if b then some xs else (erase i xs >>= λ zs. some (x ∷ zs))) y) ∙ e in
      ap (λ zs. suc (length zs)) (some_inj k)
  | inr n ↦
      let k : (erase i xs >>= λ zs. some (x ∷ zs)) ≡ some ys =
        sym (ap (λ b. if b then some xs else (erase i xs >>= λ zs. some (x ∷ zs))) n) ∙ e in
      rest (erase i xs) refl k (λ zs h. erase-length i xs zs h)
]
  where
    rest :
        (o : Option (List ℕ))
        → erase i xs ≡ o
        → (o >>= λ zs. some (x ∷ zs)) ≡ some ys
        → ((zs : List ℕ) → erase i xs ≡ some zs → length xs ≡ suc (length zs))
        → suc (length xs) ≡ suc (length ys)
    rest none h k shorter = absurd cc
    rest (some zs) h k shorter = ap suc (shorter zs h ∙ ap length (some_inj k))

-- Taking timers out to the last leaves as many as were taken.
take_out-length :
    (xs : List Entry) (wait : List ℕ) → take_out xs wait ≡ some [] → length xs ≡ length wait
unfolding take_out
take_out-length [] wait e = ap length (sym (some_inj e))
take_out-length (x ∷ xs) wait e = go (erase x.which wait) refl e (λ w. take_out-length xs w)
  where
    go :
        (o : Option (List ℕ))
        → erase x.which wait ≡ o
        → (o >>= λ w. take_out xs w) ≡ some []
        → ((w : List ℕ) → take_out xs w ≡ some [] → length xs ≡ length w)
        → suc (length xs) ≡ length wait
    go none h k same = absurd cc
    go (some w) h k same = ap suc (same w k) ∙ sym (erase-length x.which wait w h)

-- The set of entries and the list of waiting timers hold the same timers, each as often.
abbrev pub Waiting : TimerQueue → Type 0
Waiting q = take_out q.timers q.wait_timers ≡ some []

abbrev pub Expires : TimerQueue → ℕ → Option TimerQueue → Type 0
Expires q now r =
    (q' : TimerQueue) × (r ≡ some q')
    × (q'.active_timers ≡ which_of (filter (due now) q.timers))
    × (q'.timers ≡ filter (later now) q.timers)
    × Waiting q'

-- If the entries are in the order of their times, with addresses below the sentry's, and the list
-- of waiting timers holds the same timers, `getExpired` succeeds: the active timers are then
-- exactly those whose time is now or before, in the order of their times; the entries left are
-- exactly the later ones; and the list of waiting timers holds the timers left.
pub get_expired-due :
    (q : TimerQueue) (now : ℕ) → IsOrdered q.timers → Waiting q → Expires q now (get_expired q now)
unfolding get_expired
get_expired-due q now o w = go (take_out (before (sentry now) q.timers) q.wait_timers) refl
  where
    parts :
        (take_out (before (sentry now) q.timers) q.wait_timers >>= λ wait.
        take_out (from (sentry now) q.timers) wait)
        ≡ some []
    parts =
        sym (
          take_out-append (before (sentry now) q.timers) (from (sentry now) q.timers) q.wait_timers)
        ∙ ap (λ xs. take_out xs q.wait_timers) (before-from (sentry now) q.timers)
        ∙ w

    go :
        (r : Option (List ℕ))
        → take_out (before (sentry now) q.timers) q.wait_timers ≡ r
        → Expires q now (get_expired q now)
    go none e =
        let k : none ≡ some [] =
          sym (ap (λ r. r >>= λ wait. take_out (from (sentry now) q.timers) wait) e) ∙ parts in
        absurd cc
    go (some wait) e =
        let k = sym (ap (λ r. r >>= λ x. take_out (from (sentry now) q.timers) x) e) ∙ parts in
        let (p, f, past') = split_lem now q.timers o in
        let l = take_out-length (from (sentry now) q.timers) wait k in
        (
          record q {
            active_timers = which_of (before (sentry now) q.timers);
            wait_timers = wait;
            timers = from (sentry now) q.timers;
          },
          rw (past', e, l, ==_refl (length wait)) refl,
          ap which_of p,
          f,
          k,
        )
