-- ===== src/Logging/Async/Tests.antt =====
-- Two lines, one of them too late for the file.
use pallette.Base.{ℕ, ◌≡◌, refl, ◌++◌, ◌*◌, List, [], ◌∷◌, Option, some}
use pallette.Base.Text.{codes}
use pallette.Buffer.{◌>>=◌}
use pallette.Logging.Stream.{LogBuffer, append}
use pallette.Logging.Async.{
  AsyncLogging, collecting, writing, append_line, collect, write, started, stop, check_running,
  held, Reaches, start, logs, checks, recycle,
}
use pallette.Logging.Async.Lines.{texts, all_of}
use pallette.Logging.Async.Kept.{Reaches-kept, Reaches-steps}

abbrev before_stop : Option AsyncLogging
before_stop = append_line started (codes "in time") >>= λ s. (collect (check_running s) >>= write)

late :
    (before_stop >>= λ s.
    (append_line s (codes "late") >>= λ t. some (check_running (stop t)).file))
    ≡ some (codes "in time")
unfolding append_line collect write append recycle
late = refl

abbrev one_line : AsyncLogging
one_line = record started {
  current = some (record { size = 4000 * 1000; data' = codes "in time" });
}

logged : append_line started (codes "in time") ≡ some one_line
unfolding append_line append
logged = refl

Reaches-one_line : Reaches (codes "in time" ∷ []) (check_running one_line)
Reaches-one_line = checks (logs {lines = []} (codes "in time") start logged) refl

Reaches-kept_example :
    (c : LogBuffer) × ((check_running one_line).current ≡ some c)
    × (all_of (check_running one_line) c.data' ≡ texts (codes "in time" ∷ []))
Reaches-kept_example = Reaches-kept (codes "in time" ∷ []) (check_running one_line) Reaches-one_line

Reaches-steps_example :
    ((line : List ℕ) → (t : AsyncLogging) × (append_line (check_running one_line) line ≡ some t))
    × ((check_running one_line).phase ≡ collecting
        → (t : AsyncLogging) × (collect (check_running one_line) ≡ some t) × (t.phase ≡ writing))
    × ((check_running one_line).phase ≡ writing
        → (t : AsyncLogging) × (write (check_running one_line) ≡ some t)
          × (t.file ≡ (check_running one_line).file ++ held (check_running one_line).to_write))
Reaches-steps_example =
    Reaches-steps (codes "in time" ∷ []) (check_running one_line) Reaches-one_line
