-- ===== src/Base/Text.antt =====
-- `std::string` as a list of bytes: literals, equality, `std::find`, order, and `std::map` keyed
-- by strings.
use Prim.Native.Nat.{ℕ, suc}
use Prim.Native.Char.{code}
use Prim.Native.String.{String}
use mathlib.Core.Path.{◌≡◌, refl}
use mathlib.Core.Logic.{◌↔◌}
use mathlib.Core.Bool.{Bool, true, false, ◌&&◌}
use mathlib.Core.Option.{Option, none, some}
use mathlib.Core.List.{List, [], ◌∷◌, ◌++◌}
use native.Mathlib.Omega.{arith}
use pallette.Base.Tests.{ltb, ◌==◌, if◌then◌else◌, ==_refl}
use pallette.Base.Lists.{length, All}

-- The bytes of an ASCII literal.
abbrev pub codes : String → List ℕ
codes String.[] = []
codes (String.◌∷◌ c s) = code c ∷ codes s

-- `s == t`.
unfoldable pub str_eq : List ℕ → List ℕ → Bool
str_eq [] [] = true
str_eq [] (y ∷ ys) = false
str_eq (x ∷ xs) [] = false
str_eq (x ∷ xs) (y ∷ ys) = (x == y) && str_eq xs ys

-- `s < t`, byte by byte.
unfoldable pub str_less : List ℕ → List ℕ → Bool
str_less xs [] = false
str_less [] (y ∷ ys) = true
str_less (x ∷ xs) (y ∷ ys) = if ltb x y then true else (x == y) && str_less xs ys

-- `std::find(begin, end, c) - begin`.
unfoldable pub find : ℕ → List ℕ → ℕ
find c [] = 0
find c (x ∷ xs) = if x == c then 0 else suc (find c xs)

pub str_eq_refl : (xs : List ℕ) → str_eq xs xs ≡ true
unfolding str_eq
str_eq_refl [] = refl
str_eq_refl (x ∷ xs) = rw (==_refl x, str_eq_refl xs)

pub str_eq→eq : (xs ys : List ℕ) → str_eq xs ys ≡ true → xs ≡ ys
unfolding str_eq
str_eq→eq [] [] e = refl
str_eq→eq [] (y ∷ ys) e = cc
str_eq→eq (x ∷ xs) [] e = cc
str_eq→eq (x ∷ xs) (y ∷ ys) e = ground (arith, str_eq→eq xs ys)

pub str_eq_iff : (xs ys : List ℕ) → (str_eq xs ys ≡ true) ↔ (xs ≡ ys)
str_eq_iff xs ys = (str_eq→eq xs ys, λ e. rw e (str_eq_refl ys))

-- Without the byte, `std::find` answers the end.
pub find_absent : (c : ℕ) (xs : List ℕ) → All (λ x. (x == c) ≡ false) xs → find c xs ≡ length xs
unfolding find
find_absent c [] h = refl
find_absent c (x ∷ xs) h = rw (h.0, find_absent c xs h.1)

-- The first occurrence, behind a text without the byte.
pub find_after :
    (c : ℕ) (xs ys : List ℕ) → All (λ x. (x == c) ≡ false) xs → find c (xs ++ c ∷ ys) ≡ length xs
unfolding find
find_after c [] ys h = rw (==_refl c)
find_after c (x ∷ xs) ys h = rw (h.0, find_after c xs ys h.1)

-- `map::erase` of a key, with the number of entries that went.
unfoldable pub erase_key {ℓ} : {V : Type ℓ} → List ℕ → List (List ℕ × V) → ℕ × List (List ℕ × V)
erase_key k [] = (0, [])
erase_key k ((j, v) ∷ m) =
    let rest = erase_key k m in if str_eq j k then (1, m) else (rest.0, (j, v) ∷ rest.1)

-- A map from strings, in the order of its keys.
module _ {ℓ} {V : Type ℓ} where
  unfoldable pub lookup : List ℕ → List (List ℕ × V) → Option V
  lookup k [] = none
  lookup k ((j, v) ∷ m) = if str_eq j k then some v else lookup k m

  -- `m[k] = v`.
  unfoldable pub insert : List ℕ → V → List (List ℕ × V) → List (List ℕ × V)
  insert k v [] = (k, v) ∷ []
  insert k v ((j, w) ∷ m) =
      if str_eq j k
      then (k, v) ∷ m
      else if str_less k j
      then (k, v) ∷ ((j, w) ∷ m)
      else (j, w) ∷ insert k v m

  pub lookup-insert :
      (k j : List ℕ) (v : V) (m : List (List ℕ × V))
      → lookup j (insert k v m) ≡ (if str_eq k j then some v else lookup j m)
  unfolding lookup insert
  lookup-insert k j v [] = refl
  lookup-insert k j v ((i, w) ∷ m) =
      ground (arith, str_eq_iff k j, str_eq_iff i k, str_eq_iff i j, lookup-insert k j v m)
