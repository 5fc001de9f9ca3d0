-- ===== src/Queue/Objects/Tests.antt =====
-- A pool of two objects, one of them in use.
use pallette.Base.{ℕ, List, [], ◌∷◌}
use pallette.Queue.Objects.{SimpleObjectPool}

abbrev in_use : List ℕ
in_use = 0 ∷ []

abbrev one_used : SimpleObjectPool
one_used = record { max_size = 2; use_size = 1; pool = []; created = 1 }
