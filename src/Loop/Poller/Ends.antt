-- ===== src/Loop/Poller/Ends.antt =====
-- pallette/Channel.cpp, the constructor and the destructor. A channel that was removed may go.
use pallette.Base.{◌&&◌, subst, ℕ, ◌≡◌, refl, sym, ◌∙◌, Bool, true, false, not, some}
use pallette.Base.Tests.{if◌then◌else◌, some_inj}
use pallette.Loop.Poller.{Channel, EpollPoller, new, none_events, remove, has_channel}
use pallette.Loop.Poller.Sound.{IsSound}
use pallette.Loop.Poller.Updates.{remove-IsSound}
use pallette.Loop.Poller.Others.{remove-Others}

abbrev pub constructed : ℕ → Channel
constructed fd = record { fd = fd; events = none_events; index = new; added_to_loop = false }

-- Whether the asserts of the destructor of the channel `i` hold; `own` is `isInLoopThread()`.
unfoldable pub may_destroy : (event_handling own : Bool) → EpollPoller → ℕ → Bool
may_destroy event_handling own p i =
    not event_handling
    && (not (p.channel i).added_to_loop && (if own then not (has_channel p i) else true))

-- A channel that was removed from a poller in good order may be destroyed in any thread, outside its
-- callbacks.
pub may_destroy-remove :
    (p q : EpollPoller) (i : ℕ) (own : Bool)
    → IsSound p
    → remove p i ≡ some q
    → may_destroy false own q i ≡ true
unfolding may_destroy
may_destroy-remove p q i own h e =
    let (others, quiet, known, unhooked) = remove-Others p q i e in
    let (q', e', sound, gone, unwatched) = remove-IsSound p i h known quiet in
    let k = some_inj (sym e' ∙ e) in
    let gone' = subst (λ q. has_channel q i ≡ false) k gone in rw (unhooked, gone') (either own)
  where
    either : (b : Bool) → (if b then true else true) ≡ true
    either true = refl
    either false = refl
