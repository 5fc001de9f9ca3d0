-- ===== src/Loop/Dispatch/Tests.antt =====
-- A round with two active channels, the first of which is removed by its own callback.
use pallette.Base.{ℕ, ◌≡◌, refl, sym, subst, true, false, [], ◌∷◌, none, some}
use pallette.Base.Tests.{some_inj}
use pallette.Base.Lists.{All}
use pallette.Loop.Poller.{
  ctl_del, new, added, EpollPoller, ctl_add, ctl_del, put, set_index, update, update_at,
  update_channel, set_events, none_events, remove, remove_channel, has_channel,
}
use pallette.Loop.Poller.Ends.{constructed}
use pallette.Loop.Poller.Sound.{IsSound}
use pallette.Loop.Poller.Updates.{Keeps, set_events-Keeps}
use pallette.Loop.Dispatch as Dispatch
use pallette.Loop.Dispatch.{Dispatch, begin, next, Reaches, begins, nexts, removes}
use pallette.Loop.Dispatch.Registered.{Reaches-has_channel}

abbrev unused : EpollPoller
unused = record { channel = constructed; channels = λ f. none; controls = [] }

unused-IsSound : IsSound unused
unused-IsSound = record {
  known = λ i n. absurd cc;
  owned = λ f i e. absurd cc;
  watched = λ f. refl;
  legal = refl;
}

-- A poller that has taken a channel which is on the descriptor of its own number.
abbrev taken : EpollPoller → ℕ → EpollPoller
taken p i = record {
  channel =
      put (put p.channel i (record (p.channel i) { added_to_loop = true })) i
        (record { fd = i; events = none_events; index = added; added_to_loop = true });
  channels = put p.channels i (some i);
  controls =
      record { operation = ctl_add; fd = i; events = none_events; data_ptr = i } ∷ p.controls;
}

abbrev both : EpollPoller
both = taken (taken unused 5) 6

both-IsSound : IsSound both
unfolding Keeps set_events update_channel update_at set_index update
both-IsSound =
    let (p, e, h, k) = set_events-Keeps unused 5 none_events unused-IsSound (λ n. refl) in
    let one : IsSound (taken unused 5) = subst IsSound (some_inj (sym e)) h in
    let (q, e', h', k') = set_events-Keeps (taken unused 5) 6 none_events one (λ n. refl) in
    subst IsSound (some_inj (sym e')) h'

abbrev in_first : Dispatch
in_first = record (begin both (5 ∷ 6 ∷ [])) { rest = 6 ∷ []; current_active_channel = some 5 }

to_in_first : Reaches both (5 ∷ 6 ∷ []) in_first
unfolding next
to_in_first = nexts begins refl

abbrev without_first : EpollPoller
without_first = record both {
  channel =
      put
        (put both.channel 5
          (record { fd = 5; events = none_events; index = added; added_to_loop = false }))
        5 (record { fd = 5; events = none_events; index = new; added_to_loop = false });
  channels = put both.channels 5 none;
  controls =
      record { operation = ctl_del; fd = 5; events = none_events; data_ptr = 5 } ∷ both.controls;
}

to_without_first : Reaches both (5 ∷ 6 ∷ []) (record in_first { poller = without_first })
unfolding Dispatch.remove_channel remove remove_channel set_index update
to_without_first = removes 5 to_in_first refl refl

-- The channel whose turn has not come may not be removed.
remove_second : Dispatch.remove_channel in_first 6 ≡ none
unfolding Dispatch.remove_channel
remove_second = refl

Reaches-has_channel_example :
    IsSound without_first × All (λ i. has_channel without_first i ≡ true) (6 ∷ [])
Reaches-has_channel_example =
    Reaches-has_channel both (5 ∷ 6 ∷ []) (record in_first { poller = without_first }) both-IsSound
      ((refl, tt), (tt, tt)) (refl, (refl, tt)) to_without_first
