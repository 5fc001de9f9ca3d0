-- ===== src/Logging/File/Whole.antt =====
-- Every line is written whole into one file, and no file is opened twice.
use pallette.Base.{ℕ, ◌<◌, ◌≡◌, List, [], ◌∷◌, ◌++◌, map}
use pallette.Base.Lists.{joined, All}
use pallette.Logging.File.{LogFile, get_log_file_name}

-- `fwrite` takes something of what it is given.
abbrev pub Works : (ℕ → ℕ) → Type 0
Works takes = (i : ℕ) → 0 < takes i

-- Each file holds whole lines, and the files, the oldest first, hold all of them in order.
abbrev pub Wrote : LogFile → List (List ℕ) → Type 0
Wrote s lines =
    (groups : List (List (List ℕ))) × (last : List (List ℕ)) × (map (λ f. f.content) s.rolled
      ≡ map joined groups)
    × (s.file.content ≡ joined last)
    × (joined groups ++ last ≡ lines)

-- The times at which the files were opened rise.
abbrev Rising : List ℕ → ℕ → Type 0
Rising [] last = Unit
Rising (t ∷ ts) last = All (λ u. t < u) ts × (t < last) × Rising ts last

module _ (basename process_name pid : List ℕ) (stamp : ℕ → List ℕ) where
  abbrev name_at : ℕ → List ℕ
  name_at = get_log_file_name basename process_name pid stamp

  abbrev pub Opened : LogFile → Type 0
  Opened s =
      (times : List ℕ) × (map (λ f. f.name) s.rolled ≡ map name_at times)
      × (s.file.name ≡ name_at s.last_roll)
      × Rising times s.last_roll

  abbrev Good : LogFile → List (List ℕ) → Type 0
  Good s lines = Wrote s lines × Opened s
