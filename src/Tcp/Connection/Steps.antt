-- ===== src/Tcp/Connection/Steps.antt =====
-- Each operation of a connection is a move of an automaton.
use pallette.Base.{
  ℕ, ◌+◌, ◌≡◌, refl, inl, inr, Bool, true, false, not, ◌&&◌, ◌||◌, List, [], ◌∷◌, ◌++◌, some, subst,
}
use pallette.Base.Tests.{if◌then◌else◌, Bool-cases, Option-cases}
use pallette.Buffer.{Buffer, Readv, received, failed, read_fd, string_at, retrieve, peek}
use pallette.Tcp.Connection.{
  StateE, disconnecting, is_connected, is_connecting, is_open, write_complete,
  shutdown_in_loop_task, TcpConnection, Write, wrote, write_failed, shutdown_in_loop, handle_write,
  written_some, all_written, queue, shutdown, force_close, force_close_with_delay, handle_close,
  force_close_in_loop, start_read_in_loop, stop_read_in_loop, connect_established,
  connect_destroyed, handle_read,
}
use pallette.Tcp.Connection.Moves.{
  Op, step, life, Moves, Reaches, reach, reach_same, fails, shutdown_in_loop-life, if-Reaches,
  send_in_loop-Reaches, send-Reaches, on_send, on_send_in_loop, on_shutdown, on_shutdown_in_loop,
  on_force_close, on_force_close_with_delay, on_force_close_in_loop, on_start_read, on_stop_read,
  on_established, on_destroyed, on_readable, on_writable, on_close, establish, end, close, destroy,
}

pub open_connected : (s : StateE) → is_connected s ≡ true → is_open s ≡ true
open_connected s h = simp h refl

shutdown-Reaches : (in_loop : Bool) (c : TcpConnection) → Reaches c (some (shutdown in_loop c))
unfolding shutdown
shutdown-Reaches in_loop c = elim (Bool-cases (is_connected c.state)) [
  | inl up ↦
      simp up (reach c _ (subst (Moves (life c)) (ended in_loop) (end (open_connected c.state up))))
  | inr down ↦ simp down (reach_same c c refl)
]
  where
    ended :
        (in_loop : Bool)
        → life (record c { state = disconnecting })
          ≡ life (
              if in_loop
              then shutdown_in_loop (record c { state = disconnecting })
              else queue (record c { state = disconnecting }) shutdown_in_loop_task)
    ended true = shutdown_in_loop-life (record c { state = disconnecting })
    ended false = refl

force_close-Reaches : (c : TcpConnection) → Reaches c (some (force_close c))
unfolding force_close
force_close-Reaches c = elim (Bool-cases (is_open c.state)) [
  | inl up ↦ simp up (reach c _ (end up))
  | inr down ↦ simp down (reach_same c c refl)
]

force_close_with_delay-Reaches : (c : TcpConnection) → Reaches c (some (force_close_with_delay c))
unfolding force_close_with_delay
force_close_with_delay-Reaches c = elim (Bool-cases (is_open c.state)) [
  | inl up ↦ simp up (reach c _ (end up))
  | inr down ↦ simp down (reach_same c c refl)
]

handle_close-Reaches : (c : TcpConnection) → Reaches c (handle_close c)
unfolding handle_close
handle_close-Reaches c = elim (Bool-cases (is_open c.state)) [
  | inl up ↦ simp up (reach c _ (close up))
  | inr down ↦ simp down (fails c)
]

start_read-Reaches : (c : TcpConnection) → Reaches c (some (start_read_in_loop c))
unfolding start_read_in_loop
start_read-Reaches c = elim (Bool-cases (not c.reading || not c.channel_reading)) [
  | inl on ↦ simp on (reach_same c _ refl)
  | inr off ↦ simp off (reach_same c c refl)
]

stop_read-Reaches : (c : TcpConnection) → Reaches c (some (stop_read_in_loop c))
unfolding stop_read_in_loop
stop_read-Reaches c = elim (Bool-cases (c.reading || c.channel_reading)) [
  | inl on ↦ simp on (reach_same c _ refl)
  | inr off ↦ simp off (reach_same c c refl)
]

connect_established-Reaches : (c : TcpConnection) → Reaches c (connect_established c)
unfolding connect_established
connect_established-Reaches c = elim (Bool-cases (is_connecting c.state)) [
  | inl new ↦ simp new (reach c _ (establish new))
  | inr old ↦ simp old (fails c)
]

connect_destroyed-Reaches : (c : TcpConnection) → Reaches c (connect_destroyed c)
unfolding connect_destroyed
connect_destroyed-Reaches c = elim (Bool-cases (is_connected c.state)) [
  | inl up ↦ simp up (reach c _ (destroy up))
  | inr down ↦ elim (Bool-cases (not c.channel_reading && not c.channel_writing && c.in_poller)) [
    | inl quiet ↦ simp (down, quiet) (reach_same c _ refl)
    | inr watched ↦ simp (down, watched) (fails c)
  ]
]

handle_read-Reaches : (c : TcpConnection) (r : Readv) → Reaches c (handle_read c r)
unfolding handle_read
handle_read-Reaches c (failed errno) = reach_same c c refl
handle_read-Reaches c (received []) = handle_close-Reaches c
handle_read-Reaches c (received (x ∷ xs)) =
    elim (Option-cases (read_fd c.input (received (x ∷ xs)))) [
      | inl bad ↦ rw bad (fails c)
      | inr (r, good) ↦ rw good (reach_same c _ refl)
    ]

all_written-life : (c : TcpConnection) (n : ℕ) → life c ≡ life (all_written c n)
unfolding all_written
all_written-life c n = told _ _
  where
    told :
        (t s : Bool)
        → life c
          ≡ life (
              let d =
                (if t
                  then record (record c { channel_writing = false; in_poller = true }) {
                    bytes_sent = c.bytes_sent + n;
                    tasks = c.tasks ++ write_complete ∷ [];
                  }
                  else record c { channel_writing = false; in_poller = true }) in
              if s then shutdown_in_loop d else d)
    told true true = shutdown_in_loop-life _
    told true false = refl
    told false true = shutdown_in_loop-life _
    told false false = refl

written_some-Reaches : (c : TcpConnection) (n : ℕ) → Reaches c (written_some c n)
unfolding written_some
written_some-Reaches c n = elim (Option-cases (string_at c.output (peek c.output) n)) [
  | inl bad ↦ rw bad (fails c)
  | inr (bytes, good) ↦ elim (Option-cases (retrieve c.output n)) [
    | inl bad' ↦ rw (good, bad') (fails c)
    | inr (b, good') ↦ rw (good, good') (reach_same c _ (told _ bytes b))
  ]
]
  where
    told :
        (t : Bool) (bytes : List ℕ) (b : Buffer)
        → (let c' = record c { output = b; wire = c.wire ++ bytes } in
            life c ≡ life (if t then all_written c' n else c'))
    told true bytes b = all_written-life (record c { output = b; wire = c.wire ++ bytes }) n
    told false bytes b = refl

handle_write-Reaches : (c : TcpConnection) (w : Write) → Reaches c (handle_write c w)
unfolding handle_write
handle_write-Reaches c (wrote n) =
    if-Reaches c _ _ _ (if-Reaches c _ _ _ (written_some-Reaches c n) (reach_same c c refl))
      (reach_same c c refl)
handle_write-Reaches c (write_failed e) =
    if-Reaches c _ _ _ (reach_same c c refl) (reach_same c c refl)

force_close_in_loop-Reaches : (c : TcpConnection) → Reaches c (force_close_in_loop c)
unfolding force_close_in_loop
force_close_in_loop-Reaches c = if-Reaches c _ _ _ (handle_close-Reaches c) (reach_same c c refl)

-- Each operation that succeeds is a move of the automaton: `stay`, the connection established, the
-- end begun, the connection closed, or destroyed while connected.
pub step-Reaches : (c : TcpConnection) (o : Op) → Reaches c (step c o)
unfolding step
step-Reaches c (on_send in_loop ys w) = send-Reaches in_loop c ys w
step-Reaches c (on_send_in_loop ys w) = send_in_loop-Reaches c ys w
step-Reaches c (on_shutdown in_loop) = shutdown-Reaches in_loop c
step-Reaches c on_shutdown_in_loop = reach_same c _ (shutdown_in_loop-life c)
step-Reaches c on_force_close = force_close-Reaches c
step-Reaches c on_force_close_with_delay = force_close_with_delay-Reaches c
step-Reaches c on_force_close_in_loop = force_close_in_loop-Reaches c
step-Reaches c on_start_read = start_read-Reaches c
step-Reaches c on_stop_read = stop_read-Reaches c
step-Reaches c on_established = connect_established-Reaches c
step-Reaches c on_destroyed = connect_destroyed-Reaches c
step-Reaches c (on_readable r) = handle_read-Reaches c r
step-Reaches c (on_writable w) = handle_write-Reaches c w
step-Reaches c on_close = handle_close-Reaches c
