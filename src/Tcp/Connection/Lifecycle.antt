-- ===== src/Tcp/Connection/Lifecycle.antt =====
-- The life of a connection: its state, and how often the callbacks that report it were called.
use pallette.Base.{ℕ, ◌+◌, ◌≤◌, ◌≡◌, refl, ◌∙◌, inl, inr, Bool, true, false, none, some, arith}
use pallette.Base.Tests.{Bool-cases}
use pallette.Tcp.Connection.{
  StateE, connecting, connected, disconnecting, disconnected, is_connecting, is_open, TcpConnection,
  shutdown_in_loop, shutdown, handle_close, connect_destroyed,
}
use pallette.Tcp.Connection.Moves.{
  Op, step, Life, life, Moves, Reaches, stay, establish, end, close, destroy,
}
use pallette.Tcp.Connection.Steps.{open_connected, step-Reaches}

-- How far a connection is in its life.
abbrev pub rank : StateE → ℕ
rank connecting = 0
rank connected = 1
rank disconnecting = 2
rank disconnected = 3

-- How often a connection in some state was reported up, down and closed.
abbrev pub ToldOf : StateE → (up down closed : ℕ) → Type 0
ToldOf connecting u d k = (u ≡ 0) × ((d ≡ 0) × (k ≡ 0))
ToldOf connected u d k = (u ≡ 1) × ((d ≡ 0) × (k ≡ 0))
ToldOf disconnecting u d k = (u ≡ 1) × ((d ≡ 0) × (k ≡ 0))
ToldOf disconnected u d k = (u ≡ 1) × ((d ≡ 1) × (k ≤ 1))

abbrev pub Reported : TcpConnection → Type 0
Reported c = ToldOf c.state c.ups c.downs c.closes

-- States that some operations lead to, none of which failed.
pub data Run : TcpConnection → TcpConnection → Type 0 where
  done : {c : TcpConnection} → Run c c
  next : {c c' d : TcpConnection} (o : Op) → step c o ≡ some c' → Run c' d → Run c d

-- A report of the automaton.
abbrev TellsOf : Life → Type 0
TellsOf l = ToldOf l.stage l.up l.down l.closed

establish_lem :
    (s : StateE) (u d k : ℕ)
    → is_connecting s ≡ true
    → ToldOf s u d k
    → ToldOf connected (u + 1) d k × (rank s ≤ rank connected)
establish_lem connecting u d k e (a, (b, c)) = ((omega (arith, a), (b, c)), omega arith)
establish_lem connected u d k e r = absurd cc
establish_lem disconnecting u d k e r = absurd cc
establish_lem disconnected u d k e r = absurd cc

end_lem :
    (s : StateE) (u d k : ℕ)
    → is_open s ≡ true
    → ToldOf s u d k
    → ToldOf disconnecting u d k × (rank s ≤ rank disconnecting)
end_lem connecting u d k e r = absurd cc
end_lem connected u d k e r = (r, omega arith)
end_lem disconnecting u d k e r = (r, omega arith)
end_lem disconnected u d k e r = absurd cc

close_lem :
    (s : StateE) (u d k n : ℕ)
    → is_open s ≡ true
    → n ≤ 1
    → ToldOf s u d k
    → ToldOf disconnected u (d + 1) (k + n) × (rank s ≤ rank disconnected)
close_lem connecting u d k n e h r = absurd cc
close_lem connected u d k n e h (a, (b, c)) =
    ((a, (omega (arith, b), omega (arith, c))), omega arith)
close_lem disconnecting u d k n e h (a, (b, c)) =
    ((a, (omega (arith, b), omega (arith, c))), omega arith)
close_lem disconnected u d k n e h r = absurd cc

Moves-TellsOf : (l l' : Life) → Moves l l' → TellsOf l → TellsOf l' × (rank l.stage ≤ rank l'.stage)
Moves-TellsOf l l' stay r = (r, omega arith)
Moves-TellsOf l l' (establish e) r = establish_lem l.stage l.up l.down l.closed e r
Moves-TellsOf l l' (end e) r = end_lem l.stage l.up l.down l.closed e r
Moves-TellsOf l l' (close e) r = close_lem l.stage l.up l.down l.closed 1 e (omega arith) r
Moves-TellsOf l l' (destroy e) r =
    let (t, o) =
      close_lem l.stage l.up l.down l.closed 0 (open_connected l.stage e) (omega arith) r in
    ((t.0, (t.1.0, omega (arith, t.1.1))), o)

step-Reported :
    (c c' : TcpConnection) (o : Op)
    → step c o ≡ some c'
    → Reported c
    → Reported c' × (rank c.state ≤ rank c'.state)
unfolding Reaches
step-Reported c c' o e r = Moves-TellsOf (life c) (life c') (step-Reaches c o c' e) r

-- Along any sequence of operations, none of which fails an assert, from a connection that was
-- reported as its state says: the state never goes back, in the order connecting, connected,
-- disconnecting, disconnected; while it is connecting nothing has been reported; while it is
-- connected or disconnecting it has been reported up once and not down; when it is disconnected it
-- has been reported up once and down once, and its owner was told to remove it at most once.
pub Run-Reported :
    (c d : TcpConnection) → Run c d → Reported c → Reported d × (rank c.state ≤ rank d.state)
Run-Reported c d done r = (r, omega arith)
Run-Reported c d (next {c' = c'} o e rest) r =
    let (r', up) = step-Reported c c' o e r in
    let (r'', up') = Run-Reported c' d rest r' in (r'', omega (arith, up, up'))

shutdown_in_loop-same :
    (c : TcpConnection)
    → ((shutdown_in_loop c).state ≡ c.state)
      × ((shutdown_in_loop c).channel_reading ≡ c.channel_reading)
unfolding shutdown_in_loop
shutdown_in_loop-same c = elim (Bool-cases c.channel_writing) [
  | inl w ↦ simp w (refl, refl)
  | inr w ↦ simp w (refl, refl)
]

shutdown-same :
    (in_loop : Bool) (c : TcpConnection)
    → c.state ≡ connected
    → ((shutdown in_loop c).state ≡ disconnecting)
      × ((shutdown in_loop c).channel_reading ≡ c.channel_reading)
unfolding shutdown
shutdown-same true c s = simp s (shutdown_in_loop-same (record c { state = disconnecting }))
shutdown-same false c s = simp s (refl, refl)

connect_destroyed_watched :
    (c : TcpConnection)
    → c.state ≡ disconnecting
    → c.channel_reading ≡ true
    → connect_destroyed c ≡ none
unfolding connect_destroyed
connect_destroyed_watched c s r = simp (s, r) refl

-- A connection that is shut down while connected, and that is still read from, fails an assert
-- when it is destroyed next, before it is closed.
pub connect_destroyed-shutdown :
    (in_loop : Bool) (c : TcpConnection)
    → c.state ≡ connected
    → c.channel_reading ≡ true
    → connect_destroyed (shutdown in_loop c) ≡ none
connect_destroyed-shutdown in_loop c s r =
    let (state', reading') = shutdown-same in_loop c s in
    connect_destroyed_watched (shutdown in_loop c) state' (reading' ∙ r)

-- A connection that is connected or disconnecting can be closed; it is then disconnected and its
-- removal from the poller succeeds, once the close is handled.
pub connect_destroyed-handle_close :
    (c : TcpConnection)
    → is_open c.state ≡ true
    → (c' d : TcpConnection) × (handle_close c ≡ some c')
      × ((connect_destroyed c' ≡ some d)
          × ((d.state ≡ disconnected) × ((d.in_poller ≡ false) × (d.downs ≡ c.downs + 1))))
unfolding handle_close connect_destroyed
connect_destroyed-handle_close c o = simp o (_, _, refl, (refl, (refl, (refl, refl))))
