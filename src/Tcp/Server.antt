-- ===== src/Tcp/Server.antt =====
-- pallette/TcpServer.cpp. The names and what `snprintf` prints of a number are arguments; what the
-- server gives to the loops of the pool is recorded. `none` is a failed assert.
pub mod Names
mod Tests
use pallette.Base.{
  ℕ, zero, suc, ◌≡◌, Bool, true, false, not, List, [], ◌∷◌, ◌++◌, Option, none, some,
}
use pallette.Base.Tests.{◌==◌, if◌then◌else◌}
use pallette.Base.Lists.{take}
use pallette.Base.Text.{codes, insert, erase_key}
use pallette.Buffer.{◌>>=◌, ◌>>◌, guard}
use pallette.Loop.Pool.{EventLoopThreadPool, get_next_loop}
use pallette.Loop.Pool

-- A connection, as the server knows it.
pub record Conn : Type 0 where
  pub id : ℕ
  pub name : List ℕ
  pub io_loop : ℕ

-- What is run or queued in a loop.
pub data Task : Type 0 where
  establishes : Conn → Task
  destroys : Conn → Task

pub record TcpServer : Type 0 where
  pub thread_pool : EventLoopThreadPool
  pub started : Bool
  pub listening : Bool
  pub next_conn_id : ℕ
  pub connections : List (List ℕ × Conn)
  pub posted : List (ℕ × Task)

abbrev pub new : ℕ → TcpServer
new base_loop = record {
  thread_pool = Pool.new base_loop;
  started = false;
  listening = false;
  next_conn_id = 1;
  connections = [];
  posted = [];
}

-- `loops` are those that the threads of the pool start.
pub start : TcpServer → List ℕ → Option TcpServer
start s loops =
    if s.started
    then some s
    else (Pool.start s.thread_pool loops >>= λ p.
        (guard (not s.listening)
          >> some (record s { thread_pool = p; started = true; listening = true })))

pub remove_connection_in_loop : TcpServer → Conn → Option TcpServer
remove_connection_in_loop s c =
    guard ((erase_key c.name s.connections).0 == 1)
    >> some (record s {
      connections = (erase_key c.name s.connections).1;
      posted = s.posted ++ ((c.io_loop, destroys c) ∷ []);
    })

abbrev pub all_destroyed : List (List ℕ × Conn) → List (ℕ × Task)
all_destroyed [] = []
all_destroyed ((key, c) ∷ m) = (c.io_loop, destroys c) ∷ all_destroyed m

-- The destructor.
abbrev pub destroy : TcpServer → List (ℕ × Task)
destroy s = s.posted ++ all_destroyed s.connections

module _ (decimal : ℕ → List ℕ) (ip_port name : List ℕ) where
  -- `snprintf` into `buf[64]`.
  abbrev pub conn_name : ℕ → List ℕ
  conn_name id = name ++ take 63 (codes "-" ++ (ip_port ++ (codes "#" ++ decimal id)))

  abbrev pub made : TcpServer → ℕ → Conn
  made s io_loop = record {
    id = s.next_conn_id;
    name = conn_name s.next_conn_id;
    io_loop = io_loop;
  }

  abbrev pub accepted : TcpServer → EventLoopThreadPool → ℕ → TcpServer
  accepted s pool io_loop = record s {
    thread_pool = pool;
    next_conn_id = suc s.next_conn_id;
    connections = insert (conn_name s.next_conn_id) (made s io_loop) s.connections;
    posted = s.posted ++ ((io_loop, establishes (made s io_loop)) ∷ []);
  }

  pub new_connection : TcpServer → Option (Conn × TcpServer)
  new_connection s = get_next_loop s.thread_pool >>= λ r. some (made s r.0, accepted s r.1 r.0)

  abbrev pub with_live : (ℕ → Option Conn) → ℕ → Option Conn → ℕ → Option Conn
  with_live live id c i = if i == id then c else live i

  -- The servers that are reached, with the connections that were made and are not removed yet. A
  -- connection is removed once: its close callback runs once.
  pub data Reaches : (ℕ → Option Conn) → TcpServer → Type 0 where
    begins : (base_loop : ℕ) → Reaches (λ i. none) (new base_loop)
    starts :
        {live : ℕ → Option Conn} {s t : TcpServer} (loops : List ℕ)
        → Reaches live s
        → start s loops ≡ some t
        → Reaches live t
    accepts :
        {live : ℕ → Option Conn} {s t : TcpServer} {c : Conn}
        → Reaches live s
        → new_connection s ≡ some (c, t)
        → Reaches (with_live live c.id (some c)) t
    removes :
        {live : ℕ → Option Conn} {s t : TcpServer} (id : ℕ) (c : Conn)
        → Reaches live s
        → live id ≡ some c
        → remove_connection_in_loop s c ≡ some t
        → Reaches (with_live live id none) t
