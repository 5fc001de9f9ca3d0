-- ===== src/Tcp/Connection/Tests.antt =====
-- The theorems on connections at concrete ones.
use pallette.Base.{refl, ◌++◌, ◌≤◌, ◌∷◌, [], true, false}
use pallette.Base.Text.{codes}
use pallette.Buffer.Samples.{wire, wire-Holds}
use pallette.Tcp.Connection.{
  TcpConnection, connecting, connected, disconnecting, disconnected, connect_established,
  handle_close, force_close, force_close_in_loop, force_close_in_loop_task,
}
use pallette.Tcp.Connection.Calls.{new_connection}
use pallette.Tcp.Connection.Flows.{Flows, Delivers}
use pallette.Tcp.Connection.Stream.{run, sends, writable, run-Delivers}
use pallette.Tcp.Connection.Lifecycle.{Run, done, next, Reported, rank, Run-Reported}
use pallette.Tcp.Connection.Moves.{step, on_established, on_force_close, on_force_close_in_loop}

-- Accepted just now.
abbrev fresh : TcpConnection
fresh = new_connection (wire []) (wire [])

-- Connected, with two bytes that the kernel has no room for.
abbrev busy : TcpConnection
busy = record fresh {
  state = connected;
  channel_reading = true;
  channel_writing = true;
  in_poller = true;
  output = wire (codes "ab");
  ups = 1;
}

busy-Flows : Flows busy (codes "ab")
busy-Flows = record { live = refl; waits = wire-Holds (codes "ab"); watched = refl }

run-Delivers_example :
    Delivers (run busy (sends (codes "cd") 0 ∷ writable 3 ∷ [])) ([] ++ (codes "ab" ++ codes "cd"))
run-Delivers_example =
    run-Delivers busy (codes "ab") (sends (codes "cd") 0 ∷ writable 3 ∷ []) busy-Flows

abbrev opened : TcpConnection
opened = record fresh { state = connected; channel_reading = true; in_poller = true; ups = 1 }

-- Force-closed, the functor still in the queue.
abbrev ending : TcpConnection
ending = record opened { state = disconnecting; tasks = force_close_in_loop_task ∷ [] }

abbrev ended : TcpConnection
ended = record ending { state = disconnected; channel_reading = false; downs = 1; closes = 1 }

ended-Run : Run fresh ended
unfolding step connect_established force_close force_close_in_loop handle_close
ended-Run =
    next {c' = opened} on_established refl
      (next {c' = ending} on_force_close refl (next {c' = ended} on_force_close_in_loop refl done))

Run-Reported_example : Reported ended × (rank connecting ≤ rank disconnected)
Run-Reported_example = Run-Reported fresh ended ended-Run (refl, (refl, refl))
