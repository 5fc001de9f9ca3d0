-- ===== src/Inspect/Commands.antt =====
-- A command that was added answers at its path, and at no other.
use pallette.Base.{ℕ, ◌<◌, ◌≡◌, false, List, [], ◌∷◌, ◌++◌, Option}
use pallette.Base.Tests.{◌==◌}
use pallette.Base.Lists.{length, All}
use pallette.Base.Text.{lookup}
use pallette.Buffer.{◌>>=◌}
use pallette.Inspect.{slash, Callback, Inspector}

-- A name between two slashes.
abbrev pub IsPart : List ℕ → Type 0
IsPart p = (0 < length p) × All (λ x. (x == slash) ≡ false) p

abbrev pub path_of : List (List ℕ) → List ℕ
path_of [] = []
path_of (p ∷ ps) = slash ∷ (p ++ path_of ps)

-- A command is found under its names.
abbrev pub command_at : Inspector → (module' command : List ℕ) → Option Callback
command_at s module' command = lookup module' s.modules >>= lookup command
