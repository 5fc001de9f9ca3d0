-- ===== src/Loop/Pool.antt =====
-- pallette/EventLoopThreadPool.h and EventLoopThreadPool.cpp. A loop is known by a number, its
-- address; the loops that the threads start are an argument. `none` is a failed assert, or an
-- access outside the vector.
pub mod Rounds
use pallette.Base.{
  ℕ, zero, suc, ◌+◌, ◌%◌, Bool, true, false, not, List, [], ◌∷◌, Option, none, some,
}
use pallette.Base.Tests.{leb, if◌then◌else◌}
use pallette.Base.Lists.{length, get_elem?}
use pallette.Buffer.{◌>>=◌, ◌>>◌, guard}

pub record EventLoopThreadPool : Type 0 where
  pub base_loop : ℕ
  pub started : Bool
  pub next : ℕ
  pub loops : List ℕ

unfoldable pub new : ℕ → EventLoopThreadPool
new base = record { base_loop = base; started = false; next = 0; loops = [] }

unfoldable pub start : EventLoopThreadPool → List ℕ → Option EventLoopThreadPool
start p loops = guard (not p.started) >> some (record p { started = true; loops = loops })

-- `++next_`, then 0 where that is past the end.
abbrev pub advance : ℕ → ℕ → ℕ
advance next n = if leb n (suc next) then 0 else suc next

-- The loops, where there are any.
unfoldable pub next_of : EventLoopThreadPool → List ℕ → Option (ℕ × EventLoopThreadPool)
next_of p [] = some (p.base_loop, p)
next_of p (x ∷ xs) = do
  loop ← get_elem? (x ∷ xs) p.next
  some (loop, record p { next = advance p.next (length (x ∷ xs)) })

unfoldable pub get_next_loop : EventLoopThreadPool → Option (ℕ × EventLoopThreadPool)
get_next_loop p = guard p.started >> next_of p p.loops

pub loop_for_hash : EventLoopThreadPool → ℕ → List ℕ → Option ℕ
loop_for_hash p hash_code [] = some p.base_loop
loop_for_hash p hash_code (x ∷ xs) = get_elem? (x ∷ xs) (hash_code % length (x ∷ xs))

pub get_loop_for_hash : EventLoopThreadPool → ℕ → Option ℕ
get_loop_for_hash p hash_code = loop_for_hash p hash_code p.loops

pub get_all_loops : EventLoopThreadPool → Option (List ℕ)
get_all_loops p = guard p.started >> some (elim p.loops [ [] ↦ p.base_loop ∷ [] | x ∷ xs ↦ x ∷ xs ])
