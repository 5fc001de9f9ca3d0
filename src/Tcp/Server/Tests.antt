-- ===== src/Tcp/Server/Tests.antt =====
-- A server with two loops and two connections.
use pallette.Base.{ℕ, ◌+◌, true, List, [], ◌∷◌, Option, none, some}
use pallette.Base.Text.{codes}
use pallette.Loop.Pool
use pallette.Tcp.Server.{Conn, TcpServer, new, accepted, with_live}

abbrev digit : ℕ → List ℕ
digit n = (b'0' + n) ∷ []

abbrev begun : TcpServer
begun = record (new 1) {
  thread_pool = record { base_loop = 1; started = true; next = 0; loops = 2 ∷ 3 ∷ [] };
  started = true;
  listening = true;
}

abbrev one : TcpServer
one =
    accepted digit (codes "0.0.0.0:80") (codes "web") begun (record begun.thread_pool { next = 1 })
      2

abbrev two : TcpServer
two =
    accepted digit (codes "0.0.0.0:80") (codes "web") one (record begun.thread_pool { next = 0 }) 3

abbrev first : Conn
first = record { id = 1; name = codes "web-0.0.0.0:80#1"; io_loop = 2 }

abbrev second : Conn
second = record { id = 2; name = codes "web-0.0.0.0:80#2"; io_loop = 3 }

abbrev both : ℕ → Option Conn
both =
    with_live digit (codes "0.0.0.0:80") (codes "web")
      (with_live digit (codes "0.0.0.0:80") (codes "web") (λ i. none) 1 (some first)) 2
      (some second)
