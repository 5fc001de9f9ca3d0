-- ===== src/Tcp/Server/Names.antt =====
-- The names of the connections of a server tell them apart.
use pallette.Base.{ℕ, ◌+◌, ◌≤◌, ◌<◌, ◌≡◌, List, Option, some}
use pallette.Base.Lists.{length}
use pallette.Base.Text.{lookup}
use pallette.Loop.Pool.{EventLoopThreadPool}
use pallette.Loop.Pool
use pallette.Tcp.Server.{Conn, TcpServer, conn_name}

module _ (decimal : ℕ → List ℕ) (ip_port name : List ℕ) (limit : ℕ)
    (short : (i : ℕ) → i < limit → length ip_port + length (decimal i) ≤ 61)
    (distinct : (i j : ℕ) → i < limit → j < limit → decimal i ≡ decimal j → i ≡ j) where
  -- A live connection: its id, which was given out, its name, and its entry in the map.
  record Known (s : TcpServer) (i : ℕ) (c : Conn) : Type 0 where
    has_id : c.id ≡ i
    given : i < s.next_conn_id
    named : c.name ≡ conn_name decimal ip_port name i
    entry : lookup (conn_name decimal ip_port name i) s.connections ≡ some c

  Keeps : (ℕ → Option Conn) → TcpServer → Type 0
  Keeps live s = s.next_conn_id ≤ limit → (i : ℕ) (c : Conn) → live i ≡ some c → Known s i c
