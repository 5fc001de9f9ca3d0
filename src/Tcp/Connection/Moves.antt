-- ===== src/Tcp/Connection/Moves.antt =====
-- What the operations on the way out do to the state of a connection and to its reports.
use pallette.Base.{
  ℕ, ◌+◌, ◌≡◌, refl, ◌∙◌, inl, inr, Bool, true, false, List, [], ◌∷◌, ◌++◌, Option, none, some,
  subst,
}
use pallette.Base.Tests.{leb, if◌then◌else◌, Bool-cases, Option-cases, some_inj}
use pallette.Base.Lists.{length, take, drop}
use pallette.Buffer.{readable_bytes, append, Readv}
use pallette.Tcp.Connection.{
  StateE, connected, disconnecting, disconnected, is_connected, is_connecting, is_open,
  write_complete, TcpConnection, Write, wrote, write_failed, would_block, broken, other,
  shutdown_in_loop, keep_rest, after_write, write_direct, send_in_loop, send, handle_write, queue,
  shutdown, force_close, force_close_with_delay, handle_close, force_close_in_loop,
  start_read_in_loop, stop_read_in_loop, connect_established, connect_destroyed, handle_read,
  high_water_mark_reached,
}

pub data Op : Type 0 where
  on_send : Bool → List ℕ → Write → Op
  on_send_in_loop : List ℕ → Write → Op
  on_shutdown : Bool → Op
  on_shutdown_in_loop on_force_close on_force_close_with_delay on_force_close_in_loop : Op
  on_start_read on_stop_read on_established on_destroyed : Op
  on_readable : Readv → Op
  on_writable : Write → Op
  on_close : Op

unfoldable pub step : TcpConnection → Op → Option TcpConnection
step c (on_send in_loop ys w) = send in_loop c ys w
step c (on_send_in_loop ys w) = send_in_loop c ys w
step c (on_shutdown in_loop) = some (shutdown in_loop c)
step c on_shutdown_in_loop = some (shutdown_in_loop c)
step c on_force_close = some (force_close c)
step c on_force_close_with_delay = some (force_close_with_delay c)
step c on_force_close_in_loop = force_close_in_loop c
step c on_start_read = some (start_read_in_loop c)
step c on_stop_read = some (stop_read_in_loop c)
step c on_established = connect_established c
step c on_destroyed = connect_destroyed c
step c (on_readable r) = handle_read c r
step c (on_writable w) = handle_write c w
step c on_close = handle_close c

-- The state, and how often the connection was reported up, down and closed.
pub record Life : Type 0 where
  pub stage : StateE
  pub up : ℕ
  pub down : ℕ
  pub closed : ℕ

abbrev pub life : TcpConnection → Life
life c = record { stage = c.state; up = c.ups; down = c.downs; closed = c.closes }

-- The automaton that a connection runs through.
pub data Moves (l : Life) : Life → Type 0 where
  stay : Moves l l
  establish :
      is_connecting l.stage ≡ true
      → Moves l (record { stage = connected; up = l.up + 1; down = l.down; closed = l.closed })
  end : is_open l.stage ≡ true → Moves l (record l { stage = disconnecting })
  close :
      is_open l.stage ≡ true
      → Moves l
          (record { stage = disconnected; up = l.up; down = l.down + 1; closed = l.closed + 1 })
  destroy :
      is_connected l.stage ≡ true
      → Moves l (record { stage = disconnected; up = l.up; down = l.down + 1; closed = l.closed })

-- What an operation that may fail does to the life of a connection.
unfoldable pub Reaches : TcpConnection → Option TcpConnection → Type 0
Reaches c r = (c' : TcpConnection) → r ≡ some c' → Moves (life c) (life c')

pub reach : (c d : TcpConnection) → Moves (life c) (life d) → Reaches c (some d)
unfolding Reaches
reach c d m c' e = subst (λ x. Moves (life c) (life x)) (some_inj e) m

pub reach_same : (c d : TcpConnection) → life c ≡ life d → Reaches c (some d)
reach_same c d e = reach c d (subst (Moves (life c)) e stay)

pub fails : (c : TcpConnection) → Reaches c none
unfolding Reaches
fails c c' e = absurd cc

pub shutdown_in_loop-life : (c : TcpConnection) → life c ≡ life (shutdown_in_loop c)
unfolding shutdown_in_loop
shutdown_in_loop-life c = elim (Bool-cases c.channel_writing) [
  | inl w ↦ simp w refl
  | inr w ↦ simp w refl
]

keep_rest-Reaches :
    (c d : TcpConnection) (ys : List ℕ) → life c ≡ life d → Reaches c (keep_rest d ys)
unfolding keep_rest
keep_rest-Reaches c d [] e = reach_same c d e
keep_rest-Reaches c d (y ∷ ys) e = elim (Option-cases (append d.output (y ∷ ys))) [
  | inl bad ↦ rw bad (fails c)
  | inr (b, good) ↦ rw good (reach_same c _ (e ∙ told _))
]
  where
    told :
        (t : Bool)
        → life d
          ≡ life (
              if t
              then queue d (high_water_mark_reached (readable_bytes d.output + length (y ∷ ys)))
              else d)
    told true = refl
    told false = refl

after_write-life : (c : TcpConnection) (ys : List ℕ) (n : ℕ) → life c ≡ life (after_write c ys n)
unfolding after_write
after_write-life c ys n = told _
  where
    told :
        (t : Bool)
        → life c
          ≡ life (
              if t
              then record c {
                wire = c.wire ++ take n ys;
                bytes_sent = c.bytes_sent + n;
                tasks = c.tasks ++ write_complete ∷ [];
              }
              else record c { wire = c.wire ++ take n ys })
    told true = refl
    told false = refl

write_direct-Reaches :
    (c : TcpConnection) (ys : List ℕ) (w : Write) → Reaches c (write_direct c ys w)
unfolding write_direct
write_direct-Reaches c ys (wrote n) = elim (Bool-cases (leb n (length ys))) [
  | inl fits ↦ rw fits (keep_rest-Reaches c _ (drop n ys) (after_write-life c ys n))
  | inr over ↦ rw over (fails c)
]
write_direct-Reaches c ys (write_failed broken) = reach_same c c refl
write_direct-Reaches c ys (write_failed would_block) = keep_rest-Reaches c c ys refl
write_direct-Reaches c ys (write_failed other) = keep_rest-Reaches c c ys refl

-- Both branches of a test.
pub if-Reaches :
    (c : TcpConnection) (t : Bool) (r r' : Option TcpConnection)
    → Reaches c r
    → Reaches c r'
    → Reaches c (if t then r else r')
if-Reaches c true r r' p q = p
if-Reaches c false r r' p q = q

pub send_in_loop-Reaches :
    (c : TcpConnection) (ys : List ℕ) (w : Write) → Reaches c (send_in_loop c ys w)
unfolding send_in_loop
send_in_loop-Reaches c ys w =
    if-Reaches c _ _ _ (reach_same c c refl)
      (if-Reaches c _ _ _ (write_direct-Reaches c ys w) (keep_rest-Reaches c c ys refl))

pub send-Reaches :
    (in_loop : Bool) (c : TcpConnection) (ys : List ℕ) (w : Write) → Reaches c (send in_loop c ys w)
unfolding send
send-Reaches in_loop c ys w =
    if-Reaches c _ _ _
      (if-Reaches c in_loop _ _ (send_in_loop-Reaches c ys w) (reach_same c _ refl))
      (reach_same c c refl)
