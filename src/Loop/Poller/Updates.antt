-- ===== src/Loop/Poller/Updates.antt =====
-- What the poller does when a channel changes what it waits for.
use pallette.Base.{ℕ, ◌≡◌, refl, sym, ap, ◌∙◌, subst, inl, inr, true, false, Option, none, some}
use pallette.Base.Tests.{if◌then◌else◌, Bool-cases, ==_refl}
use pallette.Loop.Poller.{
  Events, Index, new, added, deleted, Channel, ctl_add, ctl_mod, ctl_del, EpollPoller,
  is_none_event, is_new, is_added, put, is_some, points_to, set_index, update, update_at,
  update_channel, remove_channel, set_events, remove, has_channel,
}
use pallette.Loop.Poller.Sound.{
  IsSound, interest, watch, replaced-IsSound, Unshared, free_lem, there_lem, points_to_lem,
  put-same,
}

-- An operation succeeds, and leaves a poller in good order that knows the channel.
unfoldable pub Keeps : Option EpollPoller → ℕ → Type 0
Keeps r i = (q : EpollPoller) × (r ≡ some q) × IsSound q × (has_channel q i ≡ true)

module _ (p : EpollPoller) (i : ℕ) (e : Events) (h : IsSound p) (u : Unshared p i) where
  -- The channel, its events set.
  abbrev changed : Channel
  changed = record (p.channel i) { events = e; added_to_loop = true }

  abbrev waiting : EpollPoller
  waiting = record p { channel = put p.channel i changed }

  new_lem : (p.channel i).index ≡ new → Keeps (update_at waiting i new) i
  unfolding update_at set_index update Keeps has_channel
  new_lem k =
      let q =
        update
          (set_index (record waiting { channels = put p.channels (waiting.channel i).fd (some i) })
            i added)
          ctl_add i in
      let there = there_lem p i new h u k in
      (
        q,
        rw (==_refl i, u (ap is_new k)) refl,
        replaced-IsSound p q i (record changed { index = added }) h refl (free_lem p i h u)
            (rw (==_refl i) refl) (λ j n. rw n refl) (rw (==_refl i, ==_refl (p.channel i).fd) refl)
            (λ f n. rw (==_refl i, n) refl) (rw (==_refl i, ==_refl (p.channel i).fd) refl)
            (λ f n. rw (==_refl i, n) refl) (rw (==_refl i, there, h.legal) refl),
        rw (==_refl i, ==_refl (p.channel i).fd, ==_refl i) refl,
      )

  mine : is_new (p.channel i).index ≡ false → points_to (p.channels (p.channel i).fd) i ≡ true
  mine k = points_to_lem _ i (h.known i k)

  deleted_lem : (p.channel i).index ≡ deleted → Keeps (update_at waiting i deleted) i
  unfolding update_at set_index update Keeps has_channel
  deleted_lem k =
      let q = update (set_index waiting i added) ctl_add i in
      let there = there_lem p i deleted h u k in
      let m = mine (ap is_new k) in
      (
        q,
        rw (==_refl i, m) refl,
        replaced-IsSound p q i (record changed { index = added }) h refl (free_lem p i h u)
            (rw (==_refl i) refl) (λ j n. rw n refl) (h.known i (ap is_new k)) (λ f n. refl)
            (rw (==_refl i, ==_refl (p.channel i).fd) refl) (λ f n. rw (==_refl i, n) refl)
            (rw (==_refl i, there, h.legal) refl),
        rw (==_refl i, m) refl,
      )

  added_lem : (p.channel i).index ≡ added → Keeps (update_at waiting i added) i
  unfolding update_at set_index update Keeps has_channel
  added_lem k = elim (Bool-cases (is_none_event e)) [
    | inl quiet ↦
        let q = set_index (update waiting ctl_del i) i deleted in
        (
          q,
          rw (==_refl i, m, quiet) refl,
          replaced-IsSound p q i (record changed { index = deleted }) h refl (free_lem p i h u)
              (rw (==_refl i) refl) (λ j n. rw n refl) (h.known i (ap is_new k)) (λ f n. refl)
              (rw (==_refl i, ==_refl (p.channel i).fd) refl) (λ f n. rw (==_refl i, n) refl)
              (rw (==_refl i, there, h.legal) refl),
          rw (==_refl i, m) refl,
        )
    | inr busy ↦
        let q = update waiting ctl_mod i in
        (
          q,
          rw (==_refl i, m, busy) refl,
          replaced-IsSound p q i changed h refl (free_lem p i h u) (rw (==_refl i) refl)
              (λ j n. rw n refl) (rw k (h.known i (ap is_new k))) (λ f n. refl)
              (rw (==_refl i, ==_refl (p.channel i).fd, k) refl) (λ f n. rw (==_refl i, n) refl)
              (rw (==_refl i, there, h.legal) refl),
          rw (==_refl i, m) refl,
        )
  ]
    where
      m : points_to (p.channels (p.channel i).fd) i ≡ true
      m = mine (ap is_new k)

      there : is_some (interest p.controls (p.channel i).fd) ≡ true
      there = there_lem p i added h u k

  update_at-Keeps : (x : Index) → (p.channel i).index ≡ x → Keeps (update_at waiting i x) i
  update_at-Keeps new k = new_lem k
  update_at-Keeps added k = added_lem k
  update_at-Keeps deleted k = deleted_lem k

  -- Setting the events of a channel, as `enableReading` and the other four do, succeeds and keeps
  -- the poller in good order, if it was and if a channel that it does not know yet has a file
  -- descriptor of its own: each channel that it knows is in its map under its descriptor and no
  -- other is, the kernel is to report exactly the events of the channels in use, to them, and no
  -- call of `epoll_ctl` so far adds a descriptor that is there, or changes or deletes one that is
  -- not. The poller then knows the channel.
  pub set_events-Keeps : Keeps (set_events p i e) i
  unfolding set_events update_channel
  set_events-Keeps =
      subst (λ x. Keeps (update_at waiting i x) i)
        (sym (ap (λ c. c.index) (put-same p.channel i changed)))
        (update_at-Keeps (p.channel i).index refl)

known-Unshared : (p : EpollPoller) (i : ℕ) → is_new (p.channel i).index ≡ false → Unshared p i
known-Unshared p i n e = absurd cc

-- `remove` on a channel that is known and waits for nothing succeeds, and keeps a poller in good
-- order; the poller then knows the channel no more, and the kernel is to report nothing on its
-- file descriptor.
pub remove-IsSound :
    (p : EpollPoller) (i : ℕ)
    → IsSound p
    → is_new (p.channel i).index ≡ false
    → is_none_event (p.channel i).events ≡ true
    → (q : EpollPoller) × (remove p i ≡ some q)
      × IsSound q
      × (has_channel q i ≡ false)
      × (interest q.controls (p.channel i).fd ≡ none)
unfolding remove remove_channel set_index update has_channel
remove-IsSound p i h n quiet = elim (Bool-cases (is_added (p.channel i).index)) [
  | inl a ↦
      let q = set_index (update erased ctl_del i) i new in
      (
        q,
        rw (==_refl i, quiet, m, n, a) (rw (==_refl i) refl),
        replaced-IsSound p q i last h refl (free_lem p i h u) (rw (==_refl i) refl)
            (λ j k. rw k refl) (rw (==_refl (p.channel i).fd) refl) (λ f k. rw k refl)
            (rw (==_refl i, ==_refl (p.channel i).fd) refl) (λ f k. rw (==_refl i, k) refl)
            (rw (==_refl i, there_lem p i (p.channel i).index h u refl, a, h.legal) refl),
        rw (==_refl i, ==_refl (p.channel i).fd) refl,
        rw (==_refl i, ==_refl (p.channel i).fd) refl,
      )
  | inr a ↦
      let q = set_index erased i new in
      let gone =
        h.watched (p.channel i).fd
        ∙ ap (λ o. watch o p.channel) (h.known i n)
        ∙ ap (λ b. if b then some ((p.channel i).events, i) else none) a in
      (
        q,
        rw (==_refl i, quiet, m, n, a) (rw (==_refl i) refl),
        replaced-IsSound p q i last h refl (free_lem p i h u) (rw (==_refl i) refl)
            (λ j k. rw k refl) (rw (==_refl (p.channel i).fd) refl) (λ f k. rw k refl) gone
            (λ f k. refl) h.legal,
        rw (==_refl i, ==_refl (p.channel i).fd) refl,
        gone,
      )
]
  where
    u : Unshared p i
    u = known-Unshared p i n

    m : points_to (p.channels (p.channel i).fd) i ≡ true
    m = points_to_lem _ i (h.known i n)

    last : Channel
    last = record (p.channel i) { added_to_loop = false; index = new }

    erased : EpollPoller
    erased = record p {
      channel = put p.channel i (record (p.channel i) { added_to_loop = false });
      channels = put p.channels (p.channel i).fd none;
    }
