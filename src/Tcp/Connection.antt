-- ===== src/Tcp/Connection.antt =====
-- pallette/TcpConnection.h and TcpConnection.cpp. The connection is a value that each operation
-- returns anew; `none` is a failed assert. `in_poller` says that the poller knows the channel. The channel's events are two flags, since only
-- kReadEvent and kWriteEvent are ever set in them. What the kernel answers to `write` and `readv`
-- is an argument, and the bytes that it took are recorded in `wire`. Callbacks are counted, and
-- functors handed to the loop are recorded in `tasks`, the newest last. The counters of bytes are
-- not followed past 2 ^ 64.
pub mod Flows
pub mod Written
pub mod Stream
pub mod Moves
pub mod Steps
pub mod Lifecycle
pub mod Calls
mod Tests
use pallette.Base.{
  ℕ, ◌+◌, ◌-◌, Bool, true, false, not, ◌&&◌, ◌||◌, List, [], ◌∷◌, ◌++◌, Option, none, some,
}
use pallette.Base.Tests.{ltb, leb, ◌==◌, if◌then◌else◌}
use pallette.Base.Lists.{length, take, drop}
use pallette.Buffer.{
  Buffer, ◌>>=◌, ◌>>◌, guard, readable_bytes, append, retrieve, retrieve_all, string_at, peek,
  Readv, received, failed, read_fd,
}

pub data StateE : Type 0 where
  disconnected connecting connected disconnecting : StateE

pub data Task : Type 0 where
  write_complete shutdown_in_loop_task force_close_in_loop_task force_close_later : Task
  high_water_mark_reached : ℕ → Task
  send_task : List ℕ → Task

pub record TcpConnection : Type 0 where
  pub state : StateE
  pub reading : Bool
  pub channel_reading : Bool
  pub channel_writing : Bool
  pub in_poller : Bool
  pub input : Buffer
  pub output : Buffer
  pub wire : List ℕ
  pub write_shut : Bool
  pub high_water_mark : ℕ
  pub write_complete_callback : Bool
  pub high_water_mark_callback : Bool
  pub bytes_received : ℕ
  pub bytes_sent : ℕ
  pub tasks : List Task
  pub ups : ℕ
  pub downs : ℕ
  pub closes : ℕ
  pub messages : ℕ

abbrev pub is_connected : StateE → Bool
is_connected connected = true
is_connected _ = false

abbrev pub is_disconnected : StateE → Bool
is_disconnected disconnected = true
is_disconnected _ = false

abbrev pub is_connecting : StateE → Bool
is_connecting connecting = true
is_connecting _ = false

abbrev pub is_disconnecting : StateE → Bool
is_disconnecting disconnecting = true
is_disconnecting _ = false

-- Connected, or disconnecting.
abbrev pub is_open : StateE → Bool
is_open s = is_connected s || is_disconnecting s

abbrev pub queue : TcpConnection → Task → TcpConnection
queue c t = record c { tasks = c.tasks ++ t ∷ [] }

-- Errors of `write`: EWOULDBLOCK, EPIPE or ECONNRESET, any other.
pub data WriteError : Type 0 where
  would_block broken other : WriteError

pub data Write : Type 0 where
  wrote : ℕ → Write
  write_failed : WriteError → Write

pub shutdown_in_loop : TcpConnection → TcpConnection
shutdown_in_loop c = if c.channel_writing then c else record c { write_shut = true }

-- The last part of `sendInLoop`: `rest` is what the kernel did not take.
pub keep_rest : TcpConnection → List ℕ → Option TcpConnection
keep_rest c [] = some c
keep_rest c (x ∷ xs) =
    let old_len = readable_bytes c.output in
    let total = old_len + length (x ∷ xs) in
    let crosses =
      leb c.high_water_mark total && ltb old_len c.high_water_mark && c.high_water_mark_callback in
    let c' = if crosses then queue c (high_water_mark_reached total) else c in
    append c.output (x ∷ xs) >>= λ b. some (record c' {
      output = b;
      channel_writing = true;
      in_poller = c.in_poller || not c.channel_writing;
    })

-- After a direct write of `n` bytes.
pub after_write : TcpConnection → List ℕ → ℕ → TcpConnection
after_write c data' n =
    let taken = record c { wire = c.wire ++ take n data' } in
    if (n == length data') && c.write_complete_callback
    then record taken { bytes_sent = c.bytes_sent + n; tasks = c.tasks ++ write_complete ∷ [] }
    else taken

pub write_direct : TcpConnection → List ℕ → Write → Option TcpConnection
write_direct c data' (wrote n) = do
  guard (leb n (length data'))
  keep_rest (after_write c data' n) (drop n data')
write_direct c data' (write_failed broken) = some c
write_direct c data' (write_failed would_block) = keep_rest c data'
write_direct c data' (write_failed other) = keep_rest c data'

pub send_in_loop : TcpConnection → List ℕ → Write → Option TcpConnection
send_in_loop c data' w =
    if is_disconnected c.state
    then some c
    else if not c.channel_writing && (readable_bytes c.output == 0)
    then write_direct c data' w
    else keep_rest c data'

-- `send`, in the loop's thread or in another.
pub send : Bool → TcpConnection → List ℕ → Write → Option TcpConnection
send in_loop c data' w =
    if is_connected c.state
    then (if in_loop then send_in_loop c data' w else some (queue c (send_task data')))
    else some c

pub shutdown : Bool → TcpConnection → TcpConnection
shutdown in_loop c =
    if is_connected c.state
    then (let c' = record c { state = disconnecting } in
        if in_loop then shutdown_in_loop c' else queue c' shutdown_in_loop_task)
    else c

pub force_close : TcpConnection → TcpConnection
force_close c =
    if is_open c.state
    then queue (record c { state = disconnecting }) force_close_in_loop_task
    else c

pub force_close_with_delay : TcpConnection → TcpConnection
force_close_with_delay c =
    if is_open c.state then queue (record c { state = disconnecting }) force_close_later else c

-- `disableAll`, then the two callbacks.
pub handle_close : TcpConnection → Option TcpConnection
handle_close c = do
  guard (is_open c.state)
  some (record c {
    state = disconnected;
    channel_reading = false;
    channel_writing = false;
    in_poller = true;
    downs = c.downs + 1;
    closes = c.closes + 1;
  })

pub force_close_in_loop : TcpConnection → Option TcpConnection
force_close_in_loop c = if is_open c.state then handle_close c else some c

pub start_read_in_loop : TcpConnection → TcpConnection
start_read_in_loop c =
    if not c.reading || not c.channel_reading
    then record c { channel_reading = true; in_poller = true; reading = true }
    else c

pub stop_read_in_loop : TcpConnection → TcpConnection
stop_read_in_loop c =
    if c.reading || c.channel_reading
    then record c { channel_reading = false; in_poller = true; reading = false }
    else c

pub connect_established : TcpConnection → Option TcpConnection
connect_established c = do
  guard (is_connecting c.state)
  some (record c { state = connected; channel_reading = true; in_poller = true; ups = c.ups + 1 })

-- `Channel::remove` asserts that no event is watched, and the poller that it knows the channel.
pub connect_destroyed : TcpConnection → Option TcpConnection
connect_destroyed c =
    let c' =
      if is_connected c.state
      then record c {
        state = disconnected;
        channel_reading = false;
        channel_writing = false;
        in_poller = true;
        downs = c.downs + 1;
      }
      else c in
    guard (not c'.channel_reading && not c'.channel_writing && c'.in_poller)
    >> some (record c' { in_poller = false })

pub handle_read : TcpConnection → Readv → Option TcpConnection
handle_read c (failed errno) = some c
handle_read c (received []) = handle_close c
handle_read c (received (x ∷ xs)) = do
  (b, _) ← read_fd c.input (received (x ∷ xs))
  some (record c {
    input = b;
    bytes_received = c.bytes_received + length (x ∷ xs);
    messages = c.messages + 1;
  })

-- The output buffer became empty.
pub all_written : TcpConnection → ℕ → TcpConnection
all_written c n =
    let quiet = record c { channel_writing = false; in_poller = true } in
    let told =
      if c.write_complete_callback
      then record quiet { bytes_sent = c.bytes_sent + n; tasks = c.tasks ++ write_complete ∷ [] }
      else quiet in
    if is_disconnecting c.state then shutdown_in_loop told else told

pub written_some : TcpConnection → ℕ → Option TcpConnection
written_some c n = do
  bytes ← string_at c.output (peek c.output) n
  b ← retrieve c.output n
  let c' = record c { output = b; wire = c.wire ++ bytes }
  some (if readable_bytes b == 0 then all_written c' n else c')

-- `n > 0` is tested, so a write of nothing is logged like an error.
pub handle_write : TcpConnection → Write → Option TcpConnection
handle_write c w =
    if c.channel_writing
    then (elim w [
      | wrote n ↦ if ltb 0 n then written_some c n else some c
      | write_failed e ↦ some c
    ])
    else some c
