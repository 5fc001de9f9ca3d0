-- ===== src/Queue/Tests.antt =====
-- A circular buffer of two elements.
use pallette.Base.{ℕ, ◌≡◌, refl, List, [], ◌∷◌, arith}
use pallette.Queue.{CircularBuffer, push_back, push_front, push_all}
use pallette.Queue.Circular.{last, push_all-last}

abbrev of : List ℕ → CircularBuffer ℕ
of xs = record { max_size = 2; buffer = xs }

push_back_full : push_back (of (1 ∷ 2 ∷ [])) 3 ≡ of (2 ∷ 3 ∷ [])
unfolding push_back
push_back_full = refl

push_front_full : push_front (of (1 ∷ 2 ∷ [])) 3 ≡ of (3 ∷ 1 ∷ [])
unfolding push_front
push_front_full = refl

push_all-last_example :
    (push_all (of (1 ∷ [])) (2 ∷ 3 ∷ 4 ∷ [])).buffer ≡ last 2 (1 ∷ 2 ∷ 3 ∷ 4 ∷ [])
push_all-last_example = push_all-last (of (1 ∷ [])) (2 ∷ 3 ∷ 4 ∷ []) (omega arith) (omega arith)
