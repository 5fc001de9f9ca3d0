-- ===== src/Tcp/Client/Tests.antt =====
-- A client that connects, and whose connection closes.
use pallette.Base.{◌+◌, ℕ, ◌≡◌, refl, true, false, ◌&&◌, List, [], ◌∷◌, none, some, arith}
use pallette.Base.Tests.{if◌then◌else◌}
use pallette.Base.Text.{codes}
use pallette.Buffer.{◌>>=◌}
use pallette.Tcp.Connector.{
  Connector, Answer, proceeds, start, start_in_loop, do_connect, begin_connecting, handle_write,
  remove_and_reset_channel, connected,
}
use pallette.Tcp.Connector
use pallette.Tcp.Client.{
  Connection, TcpClient, new, post, connect, remove_connection, made, new_connection, on_write,
  Reaches, begins, connects_to, hands_over, destroys,
}
use pallette.Tcp.Client.One.{Reaches-one}

abbrev digit : ℕ → List ℕ
digit n = (48 + n) ∷ []

abbrev peer : List ℕ
peer = codes "127.0.0.1:80"

abbrev starting : Connector
starting = record (Connector.new) {
  connect = true;
  state = Connector.connecting;
  channel = true;
  created = 1;
}

abbrev waiting : TcpClient
waiting = record (new) { connects = true; connector = starting }

abbrev up : TcpClient
up =
    new_connection digit peer (codes "c")
      (record waiting { connector = record starting { state = connected; resets = 1; handed = 1 } })

abbrev first : Connection
first = made digit peer (codes "c") waiting

abbrev nobody : List Connection
nobody = []

up-Reaches : Reaches digit peer (codes "c") (first ∷ []) up
unfolding connect start start_in_loop do_connect begin_connecting on_write new_connection
    handle_write remove_and_reset_channel
up-Reaches = hands_over {s = waiting} 0 false (connects_to proceeds begins refl) refl (omega arith)

Reaches-one_example :
    (up.connection ≡ some first)
    × (nobody ≡ [])
    × (nobody ≡ [])
    × (remove_connection up first proceeds ≡ (
        let t = post (record up { connection = none }) (destroys first) in
        if up.retry && up.connects
        then (Connector.restart up.connector proceeds >>= λ k. some (record t { connector = k }))
        else some t))
Reaches-one_example = Reaches-one digit peer (codes "c") nobody nobody up first proceeds up-Reaches
