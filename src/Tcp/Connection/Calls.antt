-- ===== src/Tcp/Connection/Calls.antt =====
-- pallette/TcpConnection.cpp, the constructor, stateToString, and the `send` of a buffer.
use pallette.Base.{
  ℕ, ◌*◌, ◌≡◌, refl, sym, ap, subst, Bool, true, false, List, [], ◌++◌, Option, some, arith,
  append-nil,
}
use pallette.Base.Tests.{if◌then◌else◌}
use pallette.Base.Lists.{length}
use pallette.Base.Text.{codes}
use pallette.Buffer.{
  Buffer, ◌>>=◌, peek, readable_bytes, string_at, retrieve_all, retrieve_all_as_string,
}
use pallette.Buffer.Inv.{Holds, retrieve_all-Holds}
use pallette.Buffer.Reads.{readable_bytes-Holds, string_at_lem}
use pallette.Tcp.Connection.{
  TcpConnection, StateE, connecting, connected, disconnecting, disconnected, is_connected, Write,
  send_in_loop, queue, send_task,
}
use pallette.Tcp.Connection.Flows.{Flows, Delivers, takes, send_in_loop-Delivers}

-- With two new buffers.
abbrev pub new_connection : (input output : Buffer) → TcpConnection
new_connection input output = record {
  state = connecting;
  reading = true;
  channel_reading = false;
  channel_writing = false;
  in_poller = false;
  input = input;
  output = output;
  wire = [];
  write_shut = false;
  high_water_mark = 64 * 1024 * 1024;
  write_complete_callback = false;
  high_water_mark_callback = false;
  bytes_received = 0;
  bytes_sent = 0;
  tasks = [];
  ups = 0;
  downs = 0;
  closes = 0;
  messages = 0;
}

pub state_to_string : StateE → List ℕ
state_to_string disconnected = codes "kDisconnected"
state_to_string connecting = codes "kConnecting"
state_to_string connected = codes "kConnected"
state_to_string disconnecting = codes "kDisconnecting"

-- The connection and the buffer afterwards.
pub send_buffer : Bool → TcpConnection → Buffer → Write → Option (TcpConnection × Buffer)
send_buffer in_loop c buf w =
    if is_connected c.state
    then (if in_loop
        then (do
          message ← string_at buf (peek buf) (readable_bytes buf)
          c' ← send_in_loop c message w
          some (c', retrieve_all buf))
        else (do
          (message, buf') ← retrieve_all_as_string buf
          some (queue c (send_task message), buf')))
    else some (c, buf)

-- In the loop's thread, `send` of a buffer on a connected connection sends its bytes behind those
-- that wait, as `sendInLoop` does, and empties the buffer.
pub send_buffer-Delivers :
    (c : TcpConnection) (xs ys : List ℕ) (buf : Buffer) (w : Write)
    → c.state ≡ connected
    → Flows c xs
    → Holds buf ys
    → takes w (length ys) ≡ true
    → (c' : TcpConnection) × (buf' : Buffer) × (send_buffer true c buf w ≡ some (c', buf'))
      × Holds buf' []
      × ((zs : List ℕ) × Flows c' zs × (c'.wire ++ zs ≡ c.wire ++ (xs ++ ys)))
unfolding send_buffer Delivers
send_buffer-Delivers c xs ys buf w s f h t =
    let (c', e, r) = send_in_loop-Delivers c xs ys w f t in
    let all = string_at_lem buf ys [] (subst (Holds buf) (sym (append-nil ys)) h) in
    (
      c',
      retrieve_all buf,
      rw (ap is_connected s, readable_bytes-Holds buf ys h, all, e) refl,
      retrieve_all-Holds buf h.valid (omega (arith, h.roomy, h.valid.ordered, h.valid.inside)),
      r,
    )
