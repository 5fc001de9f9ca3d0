-- ===== src/Buffer/Slices.antt =====
-- Ranges of a byte vector: `std::string(p, p + n)`, `std::copy` into it, and `memmem`.
use pallette.Base.{
  ℕ, suc, ◌+◌, ◌-◌, ◌≤◌, ◌≡◌, Bool, true, false, ◌&&◌, List, [], ◌∷◌, ◌++◌, Option, none, some,
  arith, append_assoc,
}
use pallette.Base.Tests.{leb, ◌==◌, if◌then◌else◌, le→leb}
use pallette.Base.Lists.{
  length, take, drop, length-append, length-take, length-drop, drop-append_eq, take-append_eq,
  drop-append_le, drop-take,
}
use mathlib.Core.Option

-- The `n` bytes from index `p`, if they are inside.
unfoldable pub slice : List ℕ → ℕ → ℕ → Option (List ℕ)
slice xs p n = if leb (p + n) (length xs) then some (take n (drop p xs)) else none

-- `std::copy(bytes.begin(), bytes.end(), p)`.
unfoldable pub write_at : List ℕ → ℕ → List ℕ → Option (List ℕ)
write_at xs p bytes =
    if leb (p + length bytes) (length xs)
    then some (take p xs ++ (bytes ++ drop (p + length bytes) xs))
    else none

unfoldable pub starts_with : List ℕ → List ℕ → Bool
starts_with xs [] = true
starts_with [] (n ∷ ns) = false
starts_with (x ∷ xs) (n ∷ ns) = (x == n) && starts_with xs ns

-- The offset of the first occurrence, as `memmem` gives it.
unfoldable pub memmem : List ℕ → List ℕ → Option ℕ
memmem [] needle = if starts_with [] needle then some 0 else none
memmem (x ∷ xs) needle =
    if starts_with (x ∷ xs) needle then some 0 else Option.map suc (memmem xs needle)

pub slice_lem :
    (xs : List ℕ) (p n : ℕ) → p + n ≤ length xs → slice xs p n ≡ some (take n (drop p xs))
unfolding slice
slice_lem xs p n h = rw (le→leb _ _ h)

pub length-slice : (xs : List ℕ) (p n : ℕ) → p + n ≤ length xs → length (take n (drop p xs)) ≡ n
length-slice xs p n h = omega (arith, length-take n (drop p xs), length-drop p xs)

abbrev pub written : List ℕ → ℕ → List ℕ → List ℕ
written xs p bytes = take p xs ++ (bytes ++ drop (p + length bytes) xs)

pub write_at_lem :
    (xs : List ℕ) (p : ℕ) (bytes : List ℕ)
    → p + length bytes ≤ length xs
    → write_at xs p bytes ≡ some (written xs p bytes)
unfolding write_at
write_at_lem xs p bytes h = rw (le→leb _ _ h)

module _ (xs : List ℕ) (p : ℕ) (bytes : List ℕ) (fits : p + length bytes ≤ length xs) where
  length-before : length (take p xs) ≡ p
  length-before = omega (arith, length-take p xs)

  pub length-written : length (written xs p bytes) ≡ length xs
  length-written = omega (
    arith,
    length-append (take p xs) (bytes ++ drop (p + length bytes) xs),
    length-append bytes (drop (p + length bytes) xs),
    length-drop (p + length bytes) xs,
    length-before,
  )

  -- The bytes that were written are read back, with `k` bytes before them.
  pub take-drop-written :
      (r k m : ℕ)
      → r + k ≡ p
      → m ≡ k + length bytes
      → take m (drop r (written xs p bytes)) ≡ take k (drop r xs) ++ bytes
  take-drop-written r k m e e' =
      rw
        (
          e',
          drop-append_le r (take p xs) (bytes ++ drop (p + length bytes) xs)
              (omega (arith, length-before)),
          drop-take r p xs,
          ← append_assoc (take (p - r) (drop r xs)) bytes (drop (p + length bytes) xs),
          gap,
        )
        (take-append_eq (k + length bytes) (take k (drop r xs) ++ bytes)
          (drop (p + length bytes) xs) len)
    where
      gap : p - r ≡ k
      gap = omega arith

      len : length (take k (drop r xs) ++ bytes) ≡ k + length bytes
      len = omega (
        arith,
        length-append (take k (drop r xs)) bytes,
        length-take k (drop r xs),
        length-drop r xs,
      )

  -- What lies behind is kept.
  pub drop-written : (k : ℕ) → k ≡ p + length bytes → drop k (written xs p bytes) ≡ drop k xs
  drop-written k e =
      rw (e, ← append_assoc (take p xs) bytes (drop (p + length bytes) xs))
        (drop-append_eq (p + length bytes) (take p xs ++ bytes) _
          (omega (arith, length-append (take p xs) bytes, length-before)))
