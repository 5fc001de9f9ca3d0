-- ===== src/Loop/Pool/Rounds.antt =====
-- The loops of a pool are handed out in turn.
use pallette.Base.{
  ℕ, zero, suc, ◌≡◌, refl, ap, subst, true, List, [], ◌∷◌, ◌++◌, Option, some, arith, append_assoc,
}
use pallette.Base.Tests.{le→leb, lt→leb_false}
use pallette.Base.Lists.{length, get_elem?, length-append}
use pallette.Buffer.{◌>>=◌}
use pallette.Loop.Pool.{EventLoopThreadPool, new, start, next_of, get_next_loop, advance}

-- The loops of `n` calls of `getNextLoop`, and the pool after them.
unfoldable pub serve : EventLoopThreadPool → ℕ → Option (List ℕ × EventLoopThreadPool)
serve p zero = some ([], p)
serve p (suc n) = do
  (loop, p') ← get_next_loop p
  (loops, p'') ← serve p' n
  some (loop ∷ loops, p'')

get_elem?-append :
    (xs : List ℕ) (y : ℕ) (ys : List ℕ) → get_elem? (xs ++ y ∷ ys) (length xs) ≡ some y
get_elem?-append [] y ys = refl
get_elem?-append (x ∷ xs) y ys = get_elem?-append xs y ys

-- The pool after `i` of the loops `all`.
abbrev pub pool : ℕ → List ℕ → ℕ → EventLoopThreadPool
pool base all i = record { base_loop = base; started = true; next = i; loops = all }

next_lem :
    (base : ℕ) (xs : List ℕ) (y : ℕ) (ys : List ℕ)
    → get_next_loop (pool base (xs ++ y ∷ ys) (length xs))
      ≡ some (y, pool base (xs ++ y ∷ ys) (advance (length xs) (length (xs ++ y ∷ ys))))
unfolding get_next_loop next_of
next_lem base [] y ys = refl
next_lem base (x ∷ xs) y ys = rw (get_elem?-append (x ∷ xs) y ys) refl

advance-last : (xs : List ℕ) (y : ℕ) → advance (length xs) (length (xs ++ y ∷ [])) ≡ 0
advance-last xs y =
    rw (le→leb (length (xs ++ y ∷ [])) (suc (length xs)) (omega (arith, length-append xs (y ∷ []))))
      refl

advance-inner :
    (xs : List ℕ) (y z : ℕ) (zs : List ℕ)
    → advance (length xs) (length (xs ++ y ∷ z ∷ zs)) ≡ length (xs ++ y ∷ [])
advance-inner xs y z zs =
    rw
      (lt→leb_false (length (xs ++ y ∷ z ∷ zs)) (suc (length xs))
        (omega (arith, length-append xs (y ∷ z ∷ zs))))
      (omega (arith, length-append xs (y ∷ [])))

-- The loops from the next one to the last.
serve_rest :
    (base : ℕ) (xs : List ℕ) (y : ℕ) (ys : List ℕ)
    → serve (pool base (xs ++ y ∷ ys) (length xs)) (suc (length ys))
      ≡ some (y ∷ ys, pool base (xs ++ y ∷ ys) 0)
unfolding serve
serve_rest base xs y [] = rw (next_lem base xs y [], advance-last xs y) refl
serve_rest base xs y (z ∷ zs) =
    let all : (xs ++ y ∷ []) ++ z ∷ zs ≡ xs ++ y ∷ z ∷ zs = append_assoc xs (y ∷ []) (z ∷ zs) in
    let rest =
      subst
        (λ ws.
          serve (pool base ws (length (xs ++ y ∷ []))) (suc (length zs))
          ≡ some (z ∷ zs, pool base ws 0))
        all (serve_rest base (xs ++ y ∷ []) z zs) in
    rw (next_lem base xs y (z ∷ zs), advance-inner xs y z zs)
      (ap (λ r. r >>= λ (ls, p). some (y ∷ ls, p)) rest)

-- After `start` of a new pool with some loops, as many calls of `getNextLoop` as there are loops
-- hand out each of them once, in order, and leave the pool as it was, so that the next calls do the
-- same.
pub serve-start :
    (base x : ℕ) (xs : List ℕ)
    → (p : EventLoopThreadPool) × (start (new base) (x ∷ xs) ≡ some p)
      × (serve p (length (x ∷ xs)) ≡ some (x ∷ xs, p))
unfolding start new
serve-start base x xs = (pool base (x ∷ xs) 0, refl, serve_rest base [] x xs)
