-- ===== src/Loop/Poller/Poll.antt =====
-- pallette/EpollPoller.cpp, poll and fillActiveChannels: what epoll_wait returned is an argument,
-- as many events as it says with the channel of each, and so is the size of `events_`.
use pallette.Base.{ℕ, ◌*◌, ◌≤◌, ◌<◌, ◌≡◌, refl, inl, inr, List, [], ◌∷◌, Option, some, arith}
use pallette.Base.Tests.{leb, ◌==◌, if◌then◌else◌, le→leb, Bool-cases}
use pallette.Base.Lists.{length}
use pallette.Buffer.{◌>>=◌, ◌>>◌, guard}

-- `epoll_wait` returned events, or failed with EINTR or another error, which is logged.
pub data Waited : Type 0 where
  happened : List ℕ → Waited
  interrupted other_error : Waited

abbrev pub init_event_list_size : ℕ
init_event_list_size = 16

-- The channels of the events, in order.
pub fill_active_channels : (size : ℕ) → List ℕ → Option (List ℕ)
fill_active_channels size events = guard (leb (length events) size) >> some events

-- The active channels, and the size of `events_` for the next call.
pub poll : (size : ℕ) → Waited → Option (List ℕ × ℕ)
poll size (happened []) = some ([], size)
poll size (happened (x ∷ xs)) = do
  active ← fill_active_channels size (x ∷ xs)
  some (active, if length (x ∷ xs) == size then size * 2 else size)
poll size interrupted = some ([], size)
poll size other_error = some ([], size)

-- When `epoll_wait` returns at most as many events as there is room for, `poll` makes all their
-- channels active, in order, and a list that was not empty has room for more than were returned.
pub poll_lem :
    (size : ℕ) (events : List ℕ)
    → length events ≤ size
    → 0 < size
    → (size' : ℕ) × (poll size (happened events) ≡ some (events, size')) × (length events < size')
unfolding poll fill_active_channels
poll_lem size [] h p = (size, refl, p)
poll_lem size (x ∷ xs) h p = elim (Bool-cases (length (x ∷ xs) == size)) [
  | inl e ↦ (size * 2, rw (le→leb _ _ h, e) refl, omega (arith, h, p))
  | inr n ↦ (size, rw (le→leb _ _ h, n) refl, ground arith)
]
