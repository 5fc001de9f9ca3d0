-- ===== src/Loop/Poller/Tests.antt =====
-- The theorems on the poller at a concrete one.
use pallette.Base.{◌≡◌, refl, sym, ◌∙◌, subst, true, false, [], ◌∷◌, none, some}
use pallette.Base.Tests.{some_inj}
use pallette.Loop.Poller.{
  new, added, EpollPoller, ctl_add, put, set_index, update, update_at, update_channel, set_events,
  none_events, remove, has_channel,
}
use pallette.Loop.Poller.Ends.{constructed}
use pallette.Loop.Poller.Sound.{IsSound, interest}
use pallette.Loop.Poller.Updates.{Keeps, set_events-Keeps, remove-IsSound}

-- No channel was given to the poller yet; channel `i` is on descriptor `i`.
abbrev unused : EpollPoller
unused = record { channel = constructed; channels = λ f. none; controls = [] }

unused-IsSound : IsSound unused
unused-IsSound = record {
  known = λ i n. absurd cc;
  owned = λ f i e. absurd cc;
  watched = λ f. refl;
  legal = refl;
}

-- Channel 5 is in the poller and waits for nothing.
abbrev idle : EpollPoller
idle = record unused {
  channel =
      put
        (put unused.channel 5
          (record { fd = 5; events = none_events; index = new; added_to_loop = true }))
        5 (record { fd = 5; events = none_events; index = added; added_to_loop = true });
  channels = put unused.channels 5 (some 5);
  controls = record { operation = ctl_add; fd = 5; events = none_events; data_ptr = 5 } ∷ [];
}

set_events-idle : set_events unused 5 none_events ≡ some idle
unfolding set_events update_channel update_at set_index update
set_events-idle = refl

idle-IsSound : IsSound idle
unfolding Keeps
idle-IsSound =
    let (q, e, h, k) = set_events-Keeps unused 5 none_events unused-IsSound (λ n. refl) in
    subst IsSound (some_inj (sym e ∙ set_events-idle)) h

remove-IsSound_example :
    (q : EpollPoller) × (remove idle 5 ≡ some q)
    × IsSound q
    × (has_channel q 5 ≡ false)
    × (interest q.controls 5 ≡ none)
remove-IsSound_example = remove-IsSound idle 5 idle-IsSound refl refl
