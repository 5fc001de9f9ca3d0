-- ===== src/Loop/Dispatch/Registered.antt =====
-- No active channel is gone when its turn comes.
use pallette.Base.{
  subst, ℕ, ◌≡◌, refl, sym, ap, ◌∙◌, Bool, true, false, not, ◌||◌, inl, inr, List, [], ◌∷◌, Option,
  none, some, arith,
}
use pallette.Base.Tests.{◌==◌, Bool-cases, some_inj, ==_iff, ==_refl}
use pallette.Base.Lists.{All}
use pallette.Buffer.Results.{bind_some, guard-some}
use pallette.Loop.Poller.{Events, EpollPoller, is_new, set_events, remove, has_channel, points_to}
use pallette.Loop.Poller.Sound.{IsSound, Unshared, points_to_lem}
use pallette.Loop.Poller.Updates.{Keeps, set_events-Keeps, remove-IsSound}
use pallette.Loop.Poller.Others.{Others, set_events-Others, remove-Others}
use pallette.Loop.Timers.{mem}
use pallette.Loop.Dispatch.{
  Dispatch, first, next, is_current, may_remove, update_channel, remove_channel, Reaches, begins,
  nexts, updates, removes,
}

module _ {A : Type 0} where
  All_map : (P Q : A → Type 0) (xs : List A) → ((x : A) → P x → Q x) → All P xs → All Q xs
  All_map P Q [] f h = tt
  All_map P Q (x ∷ xs) f (h, hs) = (f x h, All_map P Q xs f hs)

  All_both :
      (P Q R : A → Type 0) (xs : List A)
      → ((x : A) → P x → Q x → R x)
      → All P xs
      → All Q xs
      → All R xs
  All_both P Q R [] f h k = tt
  All_both P Q R (x ∷ xs) f (h, hs) (k, ks) = (f x h k, All_both P Q R xs f hs ks)

abbrev pub Distinct : List ℕ → Type 0
Distinct [] = Unit
Distinct (x ∷ xs) = All (λ y. (y == x) ≡ false) xs × Distinct xs

All-mem : (xs : List ℕ) → All (λ i. mem i xs ≡ true) xs
All-mem [] = tt
All-mem (x ∷ xs) = (
  rw (==_refl x) refl,
  All_map (λ i. mem i xs ≡ true) (λ i. mem i (x ∷ xs) ≡ true) xs
      (λ i m. or_true (x == i) (mem i xs) m) (All-mem xs),
)
  where
    or_true : (a b : Bool) → b ≡ true → (a || b) ≡ true
    or_true a b e = ground (arith, e)

abbrev pub IsKnown : EpollPoller → ℕ → Type 0
IsKnown p i = is_new (p.channel i).index ≡ false

-- A channel that the `for` has not come to.
abbrev Waits : List ℕ → Option ℕ → EpollPoller → ℕ → Type 0
Waits active current p i = IsKnown p i × (mem i active ≡ true) × (is_current current i ≡ false)

abbrev IsGood : Dispatch → Type 0
IsGood s =
    IsSound s.poller
    × (s.event_handling ≡ true)
    × Distinct s.rest
    × All (Waits s.active_channels s.current_active_channel s.poller) s.rest

has_channel-IsKnown : (p : EpollPoller) (i : ℕ) → IsSound p → IsKnown p i → has_channel p i ≡ true
unfolding has_channel
has_channel-IsKnown p i h k = points_to_lem (p.channels (p.channel i).fd) i (h.known i k)

-- What a channel that has a place in the poller's map shows.
IsKnown-has_channel : (p : EpollPoller) (i : ℕ) → IsSound p → has_channel p i ≡ true → IsKnown p i
unfolding has_channel
IsKnown-has_channel p i h e = (h.owned (p.channel i).fd i (pointed _ e)).1
  where
    pointed : (o : Option ℕ) → points_to o i ≡ true → o ≡ some i
    pointed none e = absurd (ground (arith, e))
    pointed (some j) e = ap some ((==_iff j i).0 e)

-- Among the channels that wait, those other than `i` are as they were.
Waits-others :
    (active : List ℕ) (current : Option ℕ) (p q : EpollPoller) (i : ℕ)
    → Others i p q
    → (IsKnown p i → (mem i active ≡ true) → (is_current current i ≡ false) → IsKnown q i)
    → (j : ℕ) → Waits active current p j
    → Waits active current q j
Waits-others active current p q i o f j (k, m, c) = elim (Bool-cases (j == i)) [
  | inl same ↦
      let e = (==_iff j i).0 same in
      (
        subst (IsKnown q) (sym e) (
            f (subst (IsKnown p) e k) (subst (λ j. mem j active ≡ true) e m)
              (subst (λ j. is_current current j ≡ false) e c)),
        m,
        c,
      )
  | inr other ↦ (ap (λ c. is_new c.index) (o j other) ∙ k, m, c)
]

IsGood-next :
    (s t : Dispatch) (rest : List ℕ)
    → IsGood (record s { rest = rest })
    → first s rest ≡ some t
    → IsGood t
IsGood-next s t [] h e = absurd (ground (arith, e))
IsGood-next s t (i ∷ is) (sound, handling, (apart, distinct), (w, ws)) e =
    subst IsGood (some_inj e) (
      sound,
      handling,
      distinct,
      All_both (λ j. (j == i) ≡ false) (Waits s.active_channels s.current_active_channel s.poller)
          (Waits s.active_channels (some i) s.poller) is (λ j n v. (v.0, v.1, n)) apart ws,
    )

IsGood-update_channel :
    (s t : Dispatch) (i : ℕ) (e : Events)
    → IsGood s
    → Unshared s.poller i
    → update_channel s i e ≡ some t
    → IsGood t
unfolding update_channel Keeps
IsGood-update_channel s t i e (sound, handling, distinct, waits) u h =
    let (q, set, same) = bind_some (set_events s.poller i e) _ t h in
    let (q', set', sound', has) = set_events-Keeps s.poller i e sound u in
    let k = some_inj (sym set' ∙ set) in
    let sound'' = subst IsSound k sound' in
    let known = IsKnown-has_channel q i sound'' (subst (λ q. has_channel q i ≡ true) k has) in
    subst IsGood (some_inj same) (
      sound'',
      handling,
      distinct,
      All_map _ _ s.rest
          (Waits-others s.active_channels s.current_active_channel s.poller q i
            (set_events-Others s.poller q i e set) (λ k m c. known))
          waits,
    )

IsGood-remove_channel : (s t : Dispatch) (i : ℕ) → IsGood s → remove_channel s i ≡ some t → IsGood t
unfolding remove_channel
IsGood-remove_channel s t i (sound, handling, distinct, waits) h =
    let (may, h1) = guard-some (may_remove s i) _ t h in
    let (q, gone, same) = bind_some (remove s.poller i) _ t h1 in
    let (others, quiet, known, unhooked) = remove-Others s.poller q i gone in
    let (q', gone', sound', _, _) = remove-IsSound s.poller i sound known quiet in
    subst IsGood (some_inj same) (
      subst IsSound (some_inj (sym gone' ∙ gone)) sound',
      handling,
      distinct,
      All_map _ _ s.rest
          (Waits-others s.active_channels s.current_active_channel s.poller q i others
            (λ k m c. absurd (refused s.event_handling _ _ handling m c may)))
          waits,
    )
  where
    refused : (h c m : Bool) → h ≡ true → m ≡ true → c ≡ false → (not h || (c || not m)) ≡ true → ⊥
    refused h c m a b d e = ground (arith, a, b, d, e)

Reaches-IsGood :
    (p : EpollPoller) (active : List ℕ) (s : Dispatch)
    → IsSound p
    → Distinct active
    → All (IsKnown p) active
    → Reaches p active s
    → IsGood s
unfolding next
Reaches-IsGood p active s h d k begins = (
  h,
  refl,
  d,
  All_both _ _ (Waits active none p) active (λ i known m. (known, m, refl)) k (All-mem active),
)
Reaches-IsGood p active s h d k (nexts {s = r} x e) =
    IsGood-next r s r.rest (Reaches-IsGood p active r h d k x) e
Reaches-IsGood p active s h d k (updates {s = r} i e x c u g) =
    IsGood-update_channel r s i e (Reaches-IsGood p active r h d k x) u g
Reaches-IsGood p active s h d k (removes {s = r} i x c g) =
    IsGood-remove_channel r s i (Reaches-IsGood p active r h d k x) g

-- For a poller in good order and distinct active channels that it knows, whatever channels the
-- callbacks of a round change or remove, those new to the poller on descriptors of their own: in every state of the round, the poller is in good order and
-- knows all the active channels whose turn has not come.
pub Reaches-has_channel :
    (p : EpollPoller) (active : List ℕ) (s : Dispatch)
    → IsSound p
    → Distinct active
    → All (IsKnown p) active
    → Reaches p active s
    → IsSound s.poller × All (λ i. has_channel s.poller i ≡ true) s.rest
Reaches-has_channel p active s h d k r =
    let (sound, handling, distinct, waits) = Reaches-IsGood p active s h d k r in
    (sound, All_map _ _ s.rest (λ i w. has_channel-IsKnown s.poller i sound w.0) waits)
