-- ===== src/Threads/Signal/Tests.antt =====
-- Slots are connected, expire and are cleaned away while a call is in progress.
use pallette.Base.{ℕ, ◌≡◌, Bool, true, List, [], ◌∷◌, arith}
use pallette.Threads.Signal.{SignalImpl, new, connect, expire, clean, begin_call, advance}
use pallette.Threads.Signal
use pallette.Threads.Signal.Plain.{
  Plan, Reaches, begins, connects, expires, cleans, calls_all, visits,
}
use pallette.Threads.Signal.Copies.{Goes, Reaches-copies}

abbrev untied : ℕ → Bool
untied x = true

abbrev two : SignalImpl
two = connect (connect new)

-- The first callback runs; then slot 2 is connected and slot 1 goes, before the call comes to it.
abbrev calling : SignalImpl
calling = advance (clean (expire (connect (advance (begin_call two) untied 0)) 1)) untied 0

abbrev connected : List ℕ
connected = 0 ∷ 2 ∷ []

abbrev expired : List ℕ
expired = 1 ∷ []

abbrev in_progress : List Plan
in_progress = record { to_come = []; has_run = 0 ∷ [] } ∷ []

calling-Reaches : Reaches calling connected expired in_progress
unfolding connect Signal.add Signal.set_list Signal.copy_on_write begin_call Signal.holds advance
    clean Signal.visit Signal.visited Signal.put
calling-Reaches = visits untied 0 (
    cleans (
      expires 1 (omega arith)
        (connects (visits untied 0 (calls_all (connects (connects begins)))))))

Reaches-copies_example :
    (calling.lists calling.slots ≡ connected)
    × Goes calling.lists calling.made calling.calls in_progress
Reaches-copies_example = Reaches-copies calling connected expired in_progress calling-Reaches
