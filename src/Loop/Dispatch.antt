-- ===== src/Loop/Dispatch.antt =====
-- pallette/EventLoop.cpp: the part of `loop` that handles the active channels, and what the loop
-- does for its channels, over the poller. All of it runs in the loop's thread, on channels of this
-- loop. `none` is a failed assert, or a step that is not possible.
pub mod Registered
mod Tests
use pallette.Base.{ℕ, ◌≡◌, Bool, true, false, not, ◌||◌, List, [], ◌∷◌, Option, none, some}
use pallette.Base.Tests.{◌==◌}
use pallette.Buffer.{◌>>=◌, ◌>>◌, guard}
use pallette.Loop.Poller.{Events, EpollPoller, set_events, remove}
use pallette.Loop.Poller.Sound.{Unshared}
use pallette.Loop.Timers.{mem}

-- `rest` is what the `for` has not come to of the active channels.
pub record Dispatch : Type 0 where
  pub event_handling : Bool
  pub active_channels : List ℕ
  pub rest : List ℕ
  pub current_active_channel : Option ℕ
  pub poller : EpollPoller

-- What `poll` found, at the start of the `for`.
abbrev pub begin : EpollPoller → List ℕ → Dispatch
begin p active = record {
  event_handling = true;
  active_channels = active;
  rest = active;
  current_active_channel = none;
  poller = p;
}

abbrev first : Dispatch → List ℕ → Option Dispatch
first s [] = none
first s (i ∷ is) = some (record s { rest = is; current_active_channel = some i })

-- The next round of the `for`, up to `handleEvent`.
unfoldable pub next : Dispatch → Option Dispatch
next s = first s s.rest

abbrev pub finish : Dispatch → Dispatch
finish s = record s { event_handling = false; current_active_channel = none }

abbrev pub is_current : Option ℕ → ℕ → Bool
is_current none i = false
is_current (some x) i = i == x

-- The assert of `removeChannel`.
abbrev pub may_remove : Dispatch → ℕ → Bool
may_remove s i =
    not s.event_handling || (is_current s.current_active_channel i || not (mem i s.active_channels))

-- `Channel::update` with other events, and `updateChannel`.
unfoldable pub update_channel : Dispatch → ℕ → Events → Option Dispatch
update_channel s i e = set_events s.poller i e >>= λ p. some (record s { poller = p })

-- `Channel::remove`, and `removeChannel`.
unfoldable pub remove_channel : Dispatch → ℕ → Option Dispatch
remove_channel s i =
    guard (may_remove s i) >> (remove s.poller i >>= λ p. some (record s { poller = p }))

-- The states from the start of a `for` on. The callback of the channel that is handled changes what
-- any channels wait for, and removes channels; a channel that is new to the poller has a descriptor
-- of its own.
pub data Reaches (p : EpollPoller) (active : List ℕ) : Dispatch → Type 0 where
  begins : Reaches p active (begin p active)
  nexts : {s t : Dispatch} → Reaches p active s → next s ≡ some t → Reaches p active t
  updates :
      {s t : Dispatch} {c : ℕ} (i : ℕ) (e : Events)
      → Reaches p active s
      → s.current_active_channel ≡ some c
      → Unshared s.poller i
      → update_channel s i e ≡ some t
      → Reaches p active t
  removes :
      {s t : Dispatch} {c : ℕ} (i : ℕ)
      → Reaches p active s
      → s.current_active_channel ≡ some c
      → remove_channel s i ≡ some t
      → Reaches p active t
