-- ===== src/Examples/Idle/Tests.antt =====
-- Three buckets, and two connections of which one is silent.
use pallette.Base.{ℕ, ◌≡◌, refl, true, false, List, [], ◌∷◌, some, arith}
use pallette.Examples.Idle.{
  ◌∷◌, true, ℕ, List, push_back, EchoServer, new, has, lock, on_time, run, connection, message,
  time,
}
use pallette.Queue.{push_back}
use pallette.Examples.Idle.Timer.{buckets}
use pallette.Examples.Idle.Shutdown.{run-activity}

-- The server after its first second.
abbrev running : EchoServer
running = (on_time (new 3)).1

run-activity_example :
    (out : List ℕ) × (s' : EchoServer) × (run running
        (connection true 1 ∷ connection true 2 ∷ time ∷ message 2 ∷ time ∷ [])
      ≡ some (out, s'))
    × (has 1 out ≡ false)
    × (lock 1 (buckets s') ≡ true)
    × (has 1 (on_time s').0 ≡ true)
    × (lock 1 (buckets (on_time s').1) ≡ false)
unfolding on_time push_back
run-activity_example =
    run-activity running 1 (connection true 1) (connection true 2 ∷ time ∷ message 2 ∷ time ∷ [])
      (omega arith, omega arith) (refl, refl) refl (refl, (tt, (refl, (tt, tt)))) refl
