-- ===== src/Tcp/Connector.antt =====
-- pallette/Connector.h and Connector.cpp. The connector is a value that each operation returns
-- anew; `none` is a failed assert or a null channel. Sockets are counted: those created, closed,
-- and handed to the callback of new connections. `delays` are the waits asked of the event loop,
-- the newest last, and `timers` counts the retries that wait; `resets` counts the functors
-- `resetChannel` in the loop's queue.
pub mod Sound
pub mod Events
pub mod Sockets
pub mod Delays
mod Tests
use pallette.Base.{
  ℕ, zero, suc, ◌+◌, ◌-◌, ◌*◌, min, Bool, true, false, not, ◌&&◌, ◌||◌, List, [], ◌∷◌, ◌++◌, Option,
  none, some,
}
use pallette.Base.{not, ◌&&◌}
use pallette.Base.Tests.{◌==◌, if◌then◌else◌}
use pallette.Buffer.{◌>>=◌, ◌>>◌, guard}

pub data States : Type 0 where
  disconnected connecting connected : States

pub record Connector : Type 0 where
  pub connect : Bool
  pub state : States
  pub channel : Bool
  pub retry_delay_ms : ℕ
  pub retry_connector : Bool
  pub canceled : Bool
  pub timers : ℕ
  pub delays : List ℕ
  pub resets : ℕ
  pub created : ℕ
  pub closed : ℕ
  pub handed : ℕ

-- What `connect` answers: done or in progress, an error worth a retry, another error.
pub data Answer : Type 0 where
  proceeds later refused : Answer

abbrev pub max_retry_delay_ms : ℕ
max_retry_delay_ms = 30 * 1000

abbrev pub init_retry_delay_ms : ℕ
init_retry_delay_ms = 500

abbrev pub is_disconnected : States → Bool
is_disconnected disconnected = true
is_disconnected _ = false

abbrev pub is_connecting : States → Bool
is_connecting connecting = true
is_connecting _ = false

abbrev pub new : Connector
new = record {
  connect = false;
  state = disconnected;
  channel = false;
  retry_delay_ms = init_retry_delay_ms;
  retry_connector = false;
  canceled = false;
  timers = 0;
  delays = [];
  resets = 0;
  created = 0;
  closed = 0;
  handed = 0;
}

unfoldable pub close : Connector → Connector
close c = record c { closed = c.closed + 1 }

unfoldable pub retry : Connector → Connector
unfolding close
retry c =
    let c' = record (close c) { state = disconnected } in
    if c.connect
    then record c' {
      timers = c.timers + 1;
      delays = c.delays ++ c.retry_delay_ms ∷ [];
      retry_delay_ms = min (c.retry_delay_ms * 2) max_retry_delay_ms;
      retry_connector = true;
      canceled = false;
    }
    else c'

unfoldable pub begin_connecting : Connector → Option Connector
begin_connecting c = guard (not c.channel) >> some (record c { state = connecting; channel = true })

unfoldable pub do_connect : Connector → Answer → Option Connector
unfolding begin_connecting retry close
do_connect c proceeds = begin_connecting (record c { created = c.created + 1 })
do_connect c later = some (retry (record c { created = c.created + 1 }))
do_connect c refused = some (close (record c { created = c.created + 1 }))

unfoldable pub start_in_loop : Connector → Answer → Option Connector
unfolding do_connect
start_in_loop c a = do
  guard (is_disconnected c.state)
  let c' = record c { retry_connector = false }
  if c.connect then do_connect c' a else some c'

-- In the loop's thread, where `runInLoop` runs at once.
unfoldable pub start : Connector → Answer → Option Connector
unfolding start_in_loop
start c a = start_in_loop (record c { connect = true }) a

-- The functor `stopInLoop` is queued.
unfoldable pub stop : Connector → Connector
stop c = record c { connect = false }

unfoldable pub remove_and_reset_channel : Connector → Option Connector
remove_and_reset_channel c = guard c.channel >> some (record c { resets = c.resets + 1 })

-- The timer of the last retry is cancelled; where it was before, `canceled`, that does nothing.
abbrev pub cancel : Connector → Connector
cancel c =
    if c.retry_connector && not c.canceled
    then record c { timers = c.timers - 1; canceled = true }
    else c

unfoldable pub stop_in_loop : Connector → Option Connector
unfolding remove_and_reset_channel retry
stop_in_loop c =
    let c' = cancel c in
    if is_connecting c.state
    then (do c'' ← remove_and_reset_channel (record c' { state = disconnected }); some (retry c''))
    else some c'

unfoldable pub restart : Connector → Answer → Option Connector
unfolding start_in_loop
restart c a =
    start_in_loop
      (record c { state = disconnected; retry_delay_ms = init_retry_delay_ms; connect = true }) a

unfoldable pub reset_channel : Connector → Connector
reset_channel c = record c { channel = false; resets = c.resets - 1 }

-- `err` is what getsockopt reports, `self` whether the socket is connected to itself.
unfoldable pub handle_write : Connector → (err : ℕ) → (self : Bool) → Option Connector
unfolding remove_and_reset_channel retry close
handle_write c err self =
    if is_connecting c.state
    then (do
      c' ← remove_and_reset_channel c
      some (
          if not (err == 0) || self
          then retry c'
          else (if c'.connect
              then record c' { state = connected; handed = c'.handed + 1 }
              else close (record c' { state = connected }))))
    else (do guard (is_disconnected c.state); some c)

unfoldable pub handle_error : Connector → Option Connector
unfolding remove_and_reset_channel retry
handle_error c =
    if is_connecting c.state then (do c' ← remove_and_reset_channel c; some (retry c')) else some c

-- A timer set by `retry` fires.
unfoldable pub on_timer : Connector → Answer → Option Connector
unfolding start_in_loop
on_timer c a = start_in_loop (record c { timers = c.timers - 1 }) a
