-- ===== src/Loop/Poller/Sound.antt =====
-- The poller's map, the indices of the channels and the kernel's interest list agree.
use pallette.Base.{
  ℕ, ◌≡◌, refl, sym, ap, ◌∙◌, subst, ◌⊎◌, inl, inr, Bool, true, false, not, ◌&&◌, List, [], ◌∷◌,
  Option, none, some, arith,
}
use pallette.Base.Tests.{◌==◌, if◌then◌else◌, Bool-cases, some_inj, ==_refl}
use pallette.Loop.Poller.{
  Events, Index, new, added, deleted, Channel, Operation, ctl_add, ctl_mod, ctl_del, Control,
  EpollPoller, is_new, is_added, put, is_some, points_to,
}

-- What the kernel is to report on a file descriptor after some calls: the events, and the channel.
abbrev pub after : Operation → Events → ℕ → Option (Events × ℕ)
after ctl_add e i = some (e, i)
after ctl_mod e i = some (e, i)
after ctl_del e i = none

abbrev pub interest : List Control → ℕ → Option (Events × ℕ)
interest [] f = none
interest (c ∷ cs) f = if f == c.fd then after c.operation c.events c.data_ptr else interest cs f

-- `epoll_ctl` refuses to add a file descriptor twice, and to change or delete one not there.
abbrev pub fits : Operation → Bool → Bool
fits ctl_add there = not there
fits ctl_mod there = there
fits ctl_del there = there

abbrev pub accepted : List Control → Bool
accepted [] = true
accepted (c ∷ cs) = fits c.operation (is_some (interest cs c.fd)) && accepted cs

abbrev pub watch : Option ℕ → (ℕ → Channel) → Option (Events × ℕ)
watch none m = none
watch (some i) m = if is_added (m i).index then some ((m i).events, i) else none

pub record IsSound (p : EpollPoller) : Type 0 where
  pub known : (i : ℕ) → is_new (p.channel i).index ≡ false → p.channels (p.channel i).fd ≡ some i
  pub owned :
      (f i : ℕ)
      → p.channels f ≡ some i
      → ((p.channel i).fd ≡ f) × (is_new (p.channel i).index ≡ false)
  pub watched : (f : ℕ) → interest p.controls f ≡ watch (p.channels f) p.channel
  pub legal : accepted p.controls ≡ true

eqb→eq : (a b : ℕ) → (a == b) ≡ true → a ≡ b
eqb→eq a b e = ground arith

pub put-same : {A : Type 0} (m : ℕ → A) (i : ℕ) (a : A) → put m i a i ≡ a
put-same m i a = rw (==_refl i) refl

put-other : {A : Type 0} (m : ℕ → A) (i j : ℕ) (a : A) → (j == i) ≡ false → put m i a j ≡ m j
put-other m i j a e = rw e refl

both : {A : Type 0} {b : Bool} → b ≡ true → b ≡ false → A
both e f = absurd cc

-- A poller `q` that differs from `p` in the channel `i`, which is now `c`, and in what is known of
-- its file descriptor, which no other channel has.
module _ (p q : EpollPoller) (i : ℕ) (c : Channel) (h : IsSound p)
    (same_fd : c.fd ≡ (p.channel i).fd)
    (free : (j : ℕ) → p.channels (p.channel i).fd ≡ some j → j ≡ i) (now : q.channel i ≡ c)
    (others : (j : ℕ) → (j == i) ≡ false → q.channel j ≡ p.channel j)
    (entry : q.channels (p.channel i).fd ≡ (if is_new c.index then none else some i))
    (entries : (f : ℕ) → (f == (p.channel i).fd) ≡ false → q.channels f ≡ p.channels f)
    (seen : interest q.controls (p.channel i).fd
      ≡ (if is_added c.index then some (c.events, i) else none))
    (unseen : (f : ℕ)
      → (f == (p.channel i).fd) ≡ false
      → interest q.controls f ≡ interest p.controls f)
    (legal : accepted q.controls ≡ true) where
  -- The channel of another descriptor is another.
  other : (f j : ℕ) → p.channels f ≡ some j → (f == (p.channel i).fd) ≡ false → (j == i) ≡ false
  other f j e n = elim (Bool-cases (j == i)) [
    | inl y ↦
        let (fd, _) = h.owned f j e in
        let k : f ≡ (p.channel i).fd = sym fd ∙ ap (λ x. (p.channel x).fd) (eqb→eq j i y) in
        both (subst (λ x. (f == x) ≡ true) k (==_refl f)) n
    | inr n' ↦ n'
  ]

  some_entry : is_new c.index ≡ false → q.channels (p.channel i).fd ≡ some i
  some_entry n = entry ∙ ap (λ b. if b then none else some i) n

  known' : (j : ℕ) → is_new (q.channel j).index ≡ false → q.channels (q.channel j).fd ≡ some j
  known' j n = elim (Bool-cases (j == i)) [
    | inl y ↦
        let e : j ≡ i = eqb→eq j i y in
        subst (λ x. q.channels (q.channel x).fd ≡ some x) (sym e)
          (ap (λ x. q.channels x.fd) now
            ∙ ap q.channels same_fd
            ∙ some_entry (ap (λ x. is_new x.index) (sym (ap q.channel e ∙ now)) ∙ n))
    | inr y ↦
        let o = others j y in
        let k = h.known j (ap (λ x. is_new x.index) (sym o) ∙ n) in
        elim (Bool-cases ((p.channel j).fd == (p.channel i).fd)) [
          | inl clash ↦
              let e : j ≡ i = free j (ap p.channels (sym (eqb→eq _ _ clash)) ∙ k) in
              both (subst (λ x. (j == x) ≡ true) e (==_refl j)) y
          | inr apart ↦ ap (λ x. q.channels x.fd) o ∙ entries _ apart ∙ k
        ]
  ]

  owned' :
      (f j : ℕ)
      → q.channels f ≡ some j
      → ((q.channel j).fd ≡ f) × (is_new (q.channel j).index ≡ false)
  owned' f j e = elim (Bool-cases (f == (p.channel i).fd)) [
    | inl y ↦ at_fd (eqb→eq f _ y) (Bool-cases (is_new c.index))
    | inr n ↦
        let k = sym (entries f n) ∙ e in
        let (fd, old) = h.owned f j k in
        let o = others j (other f j k n) in
        (ap (λ x. x.fd) o ∙ fd, ap (λ x. is_new x.index) o ∙ old)
  ]
    where
      at_fd :
          f ≡ (p.channel i).fd
          → (is_new c.index ≡ true) ⊎ (is_new c.index ≡ false)
          → ((q.channel j).fd ≡ f) × (is_new (q.channel j).index ≡ false)
      at_fd y (inl gone) =
          let k : none ≡ some j =
            sym (ap (λ b. if b then none else some i) gone)
            ∙ sym entry
            ∙ ap q.channels (sym y)
            ∙ e in
          absurd cc
      at_fd y (inr there) =
          let k : i ≡ j = some_inj (sym (some_entry there) ∙ ap q.channels (sym y) ∙ e) in
          let o : q.channel j ≡ c = ap q.channel (sym k) ∙ now in
          (ap (λ x. x.fd) o ∙ same_fd ∙ sym y, ap (λ x. is_new x.index) o ∙ there)

  watch_entry :
      (x : Index)
      → c.index ≡ x
      → watch (if is_new x then none else some i) q.channel
        ≡ (if is_added x then some (c.events, i) else none)
  watch_entry new e = refl
  watch_entry added e = rw (now, e) refl
  watch_entry deleted e = rw (now, e) refl

  watch_other :
      (f : ℕ) (o : Option ℕ)
      → p.channels f ≡ o
      → (f == (p.channel i).fd) ≡ false
      → watch o p.channel ≡ watch o q.channel
  watch_other f none e n = refl
  watch_other f (some j) e n = rw (others j (other f j e n)) refl

  watched' : (f : ℕ) → interest q.controls f ≡ watch (q.channels f) q.channel
  watched' f = elim (Bool-cases (f == (p.channel i).fd)) [
    | inl y ↦
        subst (λ x. interest q.controls x ≡ watch (q.channels x) q.channel) (sym (eqb→eq f _ y))
          (seen ∙ sym (watch_entry c.index refl) ∙ ap (λ o. watch o q.channel) (sym entry))
    | inr n ↦
        unseen f n
        ∙ h.watched f
        ∙ watch_other f (p.channels f) refl n
        ∙ ap (λ o. watch o q.channel) (sym (entries f n))
  ]

  pub replaced-IsSound : IsSound q
  replaced-IsSound = record { known = known'; owned = owned'; watched = watched'; legal = legal }

pub points_to_lem : (o : Option ℕ) (i : ℕ) → o ≡ some i → points_to o i ≡ true
points_to_lem none i e = absurd cc
points_to_lem (some j) i e = subst (λ k. (k == i) ≡ true) (sym (some_inj e)) (==_refl i)

-- A channel that the poller does not know yet has a descriptor of its own.
abbrev pub Unshared : EpollPoller → ℕ → Type 0
Unshared p i = is_new (p.channel i).index ≡ true → p.channels (p.channel i).fd ≡ none

pub free_lem :
    (p : EpollPoller) (i : ℕ)
    → IsSound p
    → Unshared p i
    → (j : ℕ) → p.channels (p.channel i).fd ≡ some j
    → j ≡ i
free_lem p i h u j e = elim (Bool-cases (is_new (p.channel i).index)) [
  | inl n ↦ let k : none ≡ some j = sym (u n) ∙ e in absurd cc
  | inr old ↦ some_inj (sym e ∙ h.known i old)
]

-- What the kernel has on the descriptor of the channel `i`.
pub there_lem :
    (p : EpollPoller) (i : ℕ) (x : Index)
    → IsSound p
    → Unshared p i
    → (p.channel i).index ≡ x
    → is_some (interest p.controls (p.channel i).fd) ≡ is_added x
there_lem p i new h u e = rw (h.watched (p.channel i).fd, u (ap is_new e)) refl
there_lem p i added h u e = rw (h.watched (p.channel i).fd, h.known i (ap is_new e), e) refl
there_lem p i deleted h u e = rw (h.watched (p.channel i).fd, h.known i (ap is_new e), e) refl
