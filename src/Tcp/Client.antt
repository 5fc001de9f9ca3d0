-- ===== src/Tcp/Client.antt =====
-- pallette/TcpClient.h and TcpClient.cpp, over the connector. What `snprintf` prints of a number and
-- the address of the peer are arguments; what the client gives to the loop and to its connection is
-- recorded. `none` is a failed assert. Everything runs in the loop's thread.
pub mod One
mod Tests
use pallette.Base.{
  ◌<◌, ℕ, zero, suc, ◌≡◌, Bool, true, false, not, ◌&&◌, List, [], ◌∷◌, ◌++◌, Option, none, some,
}
use pallette.Base.Tests.{◌==◌, ltb, if◌then◌else◌}
use pallette.Base.Lists.{take}
use pallette.Base.Text.{codes}
use pallette.Buffer.{◌>>=◌, ◌>>◌, guard}
use pallette.Tcp.Connector.{
  Connector, Answer, stop_in_loop, reset_channel, handle_write, handle_error, on_timer,
}
use pallette.Tcp.Connector

pub record Connection : Type 0 where
  pub id : ℕ
  pub name : List ℕ

-- What the client asks of a connection or of the loop.
pub data Task : Type 0 where
  establishes shuts destroys sets_close_callback force_closes : Connection → Task
  keeps_connector : Task

pub record TcpClient : Type 0 where
  pub connector : Connector
  pub retry : Bool
  pub connects : Bool
  pub next_conn_id : ℕ
  pub connection : Option Connection
  pub posted : List Task

abbrev pub new : TcpClient
new = record {
  connector = Connector.new;
  retry = false;
  connects = false;
  next_conn_id = 1;
  connection = none;
  posted = [];
}

abbrev pub post : TcpClient → Task → TcpClient
post s t = record s { posted = s.posted ++ (t ∷ []) }

abbrev pub enable_retry : TcpClient → TcpClient
enable_retry s = record s { retry = true }

unfoldable pub connect : TcpClient → Answer → Option TcpClient
connect s a =
    if not s.connects
    then (Connector.start s.connector a >>= λ c. some (record s { connects = true; connector = c }))
    else some s

abbrev pub shut_down : TcpClient → Option Connection → TcpClient
shut_down s none = s
shut_down s (some c) = post s (shuts c)

unfoldable pub disconnect : TcpClient → TcpClient
disconnect s = shut_down (record s { connects = false }) s.connection

unfoldable pub stop : TcpClient → TcpClient
stop s = record s { connects = false; connector = Connector.stop s.connector }

abbrev pub is_same : Option Connection → Connection → Bool
is_same none c = false
is_same (some d) c = d.id == c.id

unfoldable pub remove_connection : TcpClient → Connection → Answer → Option TcpClient
remove_connection s c a =
    let t = post (record s { connection = none }) (destroys c) in
    guard (is_same s.connection c)
    >> (if s.retry && s.connects
        then (Connector.restart s.connector a >>= λ k. some (record t { connector = k }))
        else some t)

abbrev pub destroyed : TcpClient → (unique : Bool) → Option Connection → TcpClient
destroyed s unique (some c) =
    let t = post s (sets_close_callback c) in if unique then post t (force_closes c) else t
destroyed s unique none = post (record s { connector = Connector.stop s.connector }) keeps_connector

-- The destructor; `unique` says that nobody else has the connection.
abbrev pub destroy : TcpClient → (unique : Bool) → TcpClient
destroy s unique = destroyed s unique s.connection

-- What the loop does with the connector: a functor, a timer or an event of its socket.
pub data Event : Type 0 where
  stops resets errs : Event
  retries : Answer → Event

abbrev pub on_event : Connector → Event → Option Connector
on_event c stops = stop_in_loop c
on_event c resets = some (reset_channel c)
on_event c errs = handle_error c
on_event c (retries a) = on_timer c a

module _ (decimal : ℕ → List ℕ) (ip_port name : List ℕ) where
  -- `snprintf` into `buf[32]`.
  abbrev pub conn_name : ℕ → List ℕ
  conn_name id = name ++ take 31 (codes ":" ++ (ip_port ++ (codes "#" ++ decimal id)))

  abbrev pub made : TcpClient → Connection
  made s = record { id = s.next_conn_id; name = conn_name s.next_conn_id }

  unfoldable pub new_connection : TcpClient → TcpClient
  new_connection s =
      post (record s { next_conn_id = suc s.next_conn_id; connection = some (made s) })
        (establishes (made s))

  -- The connector's socket is writable; it calls `newConnection` when it hands the socket over.
  unfoldable pub on_write : TcpClient → ℕ → Bool → Option TcpClient
  on_write s err self = handle_write s.connector err self >>= λ c.
      (let t = record s { connector = c } in
        if ltb s.connector.handed c.handed then some (new_connection t) else some t)

  -- The clients that are reached, with the connections that were made and have not closed.
  pub data Reaches : List Connection → TcpClient → Type 0 where
    begins : Reaches [] new
    enables :
        {live : List Connection} {s : TcpClient} → Reaches live s → Reaches live (enable_retry s)
    connects_to :
        {live : List Connection} {s t : TcpClient} (a : Answer)
        → Reaches live s
        → connect s a ≡ some t
        → Reaches live t
    disconnects :
        {live : List Connection} {s : TcpClient} → Reaches live s → Reaches live (disconnect s)
    stops_at : {live : List Connection} {s : TcpClient} → Reaches live s → Reaches live (stop s)
    handles :
        {live : List Connection} {s : TcpClient} {c : Connector} (e : Event)
        → Reaches live s
        → on_event s.connector e ≡ some c
        → Reaches live (record s { connector = c })
    hands_over :
        {live : List Connection} {s t : TcpClient} (err : ℕ) (self : Bool)
        → Reaches live s
        → on_write s err self ≡ some t
        → s.next_conn_id < t.next_conn_id
        → Reaches (made s ∷ live) t
    fails_to :
        {live : List Connection} {s t : TcpClient} (err : ℕ) (self : Bool)
        → Reaches live s
        → on_write s err self ≡ some t
        → t.next_conn_id ≡ s.next_conn_id
        → Reaches live t
    closes :
        {s t : TcpClient} (older newer : List Connection) (c : Connection) (a : Answer)
        → Reaches (newer ++ (c ∷ older)) s
        → remove_connection s c a ≡ some t
        → Reaches (newer ++ older) t
