-- ===== src/Queue.antt =====
-- pallette/CircularBuffer.hpp; the deque is a list.
pub mod Circular
pub mod Objects
mod Tests
use pallette.Base.{ℕ, zero, suc, ◌≡◌, Bool, true, false, List, [], ◌∷◌, ◌++◌, Option, none, some}
use pallette.Base.Tests.{ltb, ◌==◌, if◌then◌else◌}
use pallette.Base.Lists.{length, take, drop}
use pallette.Buffer.{◌>>=◌}

pub record CircularBuffer {ℓ} (A : Type ℓ) : Type ℓ where
  pub max_size : ℕ
  pub buffer : List A

module _ {ℓ} {A : Type ℓ} where
  abbrev pub empty : CircularBuffer A → Bool
  empty b = length b.buffer == 0

  abbrev pub full : CircularBuffer A → Bool
  full b = length b.buffer == b.max_size

  unfoldable pub push_back : CircularBuffer A → A → CircularBuffer A
  push_back b x =
      if ltb (length b.buffer) b.max_size
      then record b { buffer = b.buffer ++ (x ∷ []) }
      else record b { buffer = drop 1 b.buffer ++ (x ∷ []) }

  abbrev pub without_last : List A → List A
  without_last [] = []
  without_last (x ∷ []) = []
  without_last (x ∷ y ∷ xs) = x ∷ without_last (y ∷ xs)

  unfoldable pub push_front : CircularBuffer A → A → CircularBuffer A
  push_front b x =
      if ltb (length b.buffer) b.max_size
      then record b { buffer = x ∷ b.buffer }
      else record b { buffer = x ∷ without_last b.buffer }

  pub push_all : CircularBuffer A → List A → CircularBuffer A
  push_all b [] = b
  push_all b (x ∷ xs) = push_all (push_back b x) xs
