-- ===== src/Logging/File/Tests.antt =====
-- Two lines, the first of which fills its file.
use pallette.Base.{ℕ, List, [], ◌∷◌}
use pallette.Base.Text.{codes}
use pallette.Logging.File.{Line}

abbrev line : List ℕ → ℕ → Line
line text now = record { text = text; takes = λ i. 3; now_of_roll = now; now = now }

abbrev stamp : ℕ → List ℕ
stamp now = now ∷ []

abbrev lines : List Line
lines = line (codes "hello") 8 ∷ line (codes "you") 9 ∷ []
