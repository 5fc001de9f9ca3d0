-- ===== src/Logging/Logger/Written.antt =====
-- What a statement of the log writes.
use pallette.Base.{◌^◌, ℕ, ◌≤◌, ◌<◌, ◌≡◌, true, List, [], ◌∷◌, ◌++◌, ◌⊎◌}
use pallette.Base.Lists.{drop, length}
use pallette.Base.Text.{codes}
use pallette.Base.Lists.{drop}
use pallette.Logging.Stream.{LogBuffer, small_buffer}
use pallette.Logging.Stream.Digits.{InRange}
use pallette.Logging.Stream.Bounds.{append-Extends, append-Extends}
use pallette.Logging.Logger.{Level, State, Site, Level, trace, debug, info, warn, error, fatal}

abbrev pub FitsSite : Site → Type 0
FitsSite site = InRange 32 site.tid × InRange 32 site.line × (site.errno < 2 ^ 31)

-- The text of a line begins with its time, is no longer than the buffer, and where it is not as long
-- as that, ends as the destructor ends it.
pub record IsLine (time text : List ℕ) : Type 0 where
  pub more : List ℕ
  pub begins : text ≡ time ++ more
  pub bounded : length text ≤ small_buffer
  pub ends : (length text ≡ small_buffer) ⊎ ((body : List ℕ) × (text ≡ body ++ codes "}\n"))

-- The buffer of a line that holds a text.
abbrev holding : List ℕ → LogBuffer
holding text = record { size = small_buffer; data' = text }

-- The state after a line's text is put out.
abbrev pub ended : Level → State → List ℕ → State
ended fatal t text = record t {
  written = t.written ++ ((t.output, text) ∷ []);
  flushed = t.flushed ++ (t.flush_func ∷ []);
  aborted = true;
}
ended trace t text = record t { written = t.written ++ ((t.output, text) ∷ []) }
ended debug t text = record t { written = t.written ++ ((t.output, text) ∷ []) }
ended info t text = record t { written = t.written ++ ((t.output, text) ∷ []) }
ended warn t text = record t { written = t.written ++ ((t.output, text) ∷ []) }
ended error t text = record t { written = t.written ++ ((t.output, text) ∷ []) }
