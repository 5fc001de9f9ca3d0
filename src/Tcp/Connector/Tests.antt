-- ===== src/Tcp/Connector/Tests.antt =====
-- The theorems on connectors at concrete ones.
use pallette.Base.{refl, true, false}
use pallette.Tcp.Connector.{
  Connector, connecting, connected, new, proceeds, start, start_in_loop, do_connect,
  begin_connecting, retry, close, handle_write, remove_and_reset_channel,
}
use pallette.Tcp.Connector.Sockets.{Run, done, next, on_start, on_write, step, Run-IsSound}
use pallette.Tcp.Connector.Sound.{IsSound}

abbrev attempting : Connector
attempting = record new { connect = true; state = connecting; channel = true; created = 1 }

-- Connected, the channel of the attempt not reset yet.
abbrev made : Connector
made = record attempting { state = connected; resets = 1; handed = 1 }

made-Run : Run new made
unfolding step start start_in_loop do_connect begin_connecting handle_write remove_and_reset_channel
    retry close
made-Run =
    next {c' = attempting} (on_start proceeds) refl (next {c' = made} (on_write 0 false) refl done)

Run-IsSound_example : IsSound made
Run-IsSound_example = Run-IsSound made made-Run
