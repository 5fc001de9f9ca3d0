-- ===== src/Loop/Poller.antt =====
-- pallette/Channel.h and Channel.cpp, EpollPoller.h and EpollPoller.cpp. A channel is known by a
-- number, its address; the channels of a loop are a function of it. The kernel's answers are not
-- part of the state: the calls of `epoll_ctl` are recorded, the newest first. The events are two
-- flags, since only kReadEvent and kWriteEvent are ever set. `none` is a failed assert.
pub mod Sound
pub mod Updates
pub mod Poll
pub mod Others
pub mod Ends
mod Tests
use pallette.Base.{ℕ, Bool, true, false, not, ◌&&◌, ◌||◌, List, [], ◌∷◌, Option, none, some}
use pallette.Base.Tests.{◌==◌, if◌then◌else◌}
use pallette.Buffer.{◌>>=◌, ◌>>◌, guard}

pub record Events : Type 0 where
  pub reading : Bool
  pub writing : Bool

pub data Index : Type 0 where
  new added deleted : Index

pub record Channel : Type 0 where
  pub fd : ℕ
  pub events : Events
  pub index : Index
  pub added_to_loop : Bool

pub data Operation : Type 0 where
  ctl_add ctl_mod ctl_del : Operation

-- A call `epoll_ctl(epollfd_, operation, fd, &opEvent)`.
pub record Control : Type 0 where
  pub operation : Operation
  pub fd : ℕ
  pub events : Events
  pub data_ptr : ℕ

pub record EpollPoller : Type 0 where
  pub channel : ℕ → Channel
  pub channels : ℕ → Option ℕ
  pub controls : List Control

abbrev pub none_events : Events
none_events = record { reading = false; writing = false }

abbrev pub is_none_event : Events → Bool
is_none_event e = not (e.reading || e.writing)

abbrev pub is_new : Index → Bool
is_new new = true
is_new added = false
is_new deleted = false

abbrev pub is_added : Index → Bool
is_added new = false
is_added added = true
is_added deleted = false

-- A map with one entry set.
abbrev pub put {ℓ} : {A : Type ℓ} → (ℕ → A) → ℕ → A → ℕ → A
put m k v j = if j == k then v else m j

abbrev pub is_some {ℓ} : {A : Type ℓ} → Option A → Bool
is_some none = false
is_some (some a) = true

-- `channels_[fd] == channel`, where the file descriptor is in the map.
abbrev pub points_to : Option ℕ → ℕ → Bool
points_to none i = false
points_to (some j) i = j == i

unfoldable pub set_index : EpollPoller → ℕ → Index → EpollPoller
set_index p i x = record p { channel = put p.channel i (record (p.channel i) { index = x }) }

unfoldable pub update : EpollPoller → Operation → ℕ → EpollPoller
update p op i =
    let c = p.channel i in
    record p {
      controls = record { operation = op; fd = c.fd; events = c.events; data_ptr = i } ∷ p.controls;
    }

unfoldable pub update_at : EpollPoller → ℕ → Index → Option EpollPoller
update_at p i new =
    let fd = (p.channel i).fd in
    guard (not (is_some (p.channels fd)))
    >> some
        (update (set_index (record p { channels = put p.channels fd (some i) }) i added) ctl_add i)
update_at p i deleted =
    guard (points_to (p.channels (p.channel i).fd) i)
    >> some (update (set_index p i added) ctl_add i)
update_at p i added =
    guard (points_to (p.channels (p.channel i).fd) i)
    >> some (
        if is_none_event (p.channel i).events
        then set_index (update p ctl_del i) i deleted
        else update p ctl_mod i)

unfoldable pub update_channel : EpollPoller → ℕ → Option EpollPoller
update_channel p i = update_at p i (p.channel i).index

unfoldable pub remove_channel : EpollPoller → ℕ → Option EpollPoller
remove_channel p i = do
  let c = p.channel i
  guard (points_to (p.channels c.fd) i)
  guard (is_none_event c.events)
  guard (not (is_new c.index))
  let erased = record p { channels = put p.channels c.fd none }
  some (set_index (if is_added c.index then update erased ctl_del i else erased) i new)

unfoldable pub has_channel : EpollPoller → ℕ → Bool
has_channel p i = points_to (p.channels (p.channel i).fd) i

-- The loop's channel `i` with other events, given to the poller by `Channel::update`.
unfoldable pub set_events : EpollPoller → ℕ → Events → Option EpollPoller
set_events p i e =
    update_channel
      (record p {
        channel = put p.channel i (record (p.channel i) { events = e; added_to_loop = true });
      })
      i

pub enable_reading : EpollPoller → ℕ → Option EpollPoller
enable_reading p i = set_events p i (record (p.channel i).events { reading = true })

pub disable_reading : EpollPoller → ℕ → Option EpollPoller
disable_reading p i = set_events p i (record (p.channel i).events { reading = false })

pub enable_writing : EpollPoller → ℕ → Option EpollPoller
enable_writing p i = set_events p i (record (p.channel i).events { writing = true })

pub disable_writing : EpollPoller → ℕ → Option EpollPoller
disable_writing p i = set_events p i (record (p.channel i).events { writing = false })

pub disable_all : EpollPoller → ℕ → Option EpollPoller
disable_all p i = set_events p i none_events

-- `Channel::remove`.
unfoldable pub remove : EpollPoller → ℕ → Option EpollPoller
remove p i = do
  guard (is_none_event (p.channel i).events)
  remove_channel
      (record p { channel = put p.channel i (record (p.channel i) { added_to_loop = false }) }) i
