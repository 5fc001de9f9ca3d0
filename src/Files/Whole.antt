-- ===== src/Files/Whole.antt =====
-- A file is read to its end or to the limit.
use pallette.Base.{ℕ, ◌-◌, ◌<◌, ◌≡◌, List, ◌++◌}
use pallette.Base.Lists.{length, take}
use pallette.Files.{Read, gives, Result}

-- `read` does not fail, and gives something before the end of the file.
abbrev pub Works : (ℕ → Read) → Type 0
Works reads = (i : ℕ) → (n : ℕ) × (reads i ≡ gives n) × (0 < n)

module _ (reads : ℕ → Read) (max_size : ℕ) (works : Works reads) where
  abbrev Takes : (Result → Result) → List ℕ → Result → Type 0
  Takes go rest r =
      go r ≡ record r { content = r.content ++ take (max_size - length r.content) rest }
