-- ===== src/Endian/Laws.antt =====
-- Byte order: the bytes put on the network are the big-endian digits, and reading undoes writing.
use pallette.Base.{
  ℕ, zero, suc, ◌+◌, ◌*◌, ◌/◌, ◌%◌, ◌^◌, ◌<◌, ◌≡◌, refl, ap, ◌∙◌, List, [], ◌∷◌, ◌++◌, arith, sym,
  subst,
}
use pallette.Base.Lists.{length, length-append, All, All-append}
use pallette.Endian.{le_bytes, of_le, swap_bytes, be_bytes}
use mathlib.Core.Path.{ap₂}
use mathlib.Core.List.{reverse, reverse-cons, reverse-reverse}
use native.Mathlib.Nat.{pow-suc, pow-succ', div-div-eq-div-mul}

abbrev pub AreBytes : List ℕ → Type 0
AreBytes = All (λ b. b < 256)

pub length-le_bytes : (n x : ℕ) → length (le_bytes n x) ≡ n
unfolding le_bytes
length-le_bytes zero x = refl
length-le_bytes (suc n) x = ap suc (length-le_bytes n (x / 256))

le_bytes-AreBytes : (n x : ℕ) → AreBytes (le_bytes n x)
unfolding le_bytes
le_bytes-AreBytes zero x = tt
le_bytes-AreBytes (suc n) x = (omega arith, le_bytes-AreBytes n (x / 256))

pub length-be_bytes : (n x : ℕ) → length (be_bytes n x) ≡ n
unfolding be_bytes
length-be_bytes zero x = refl
length-be_bytes (suc n) x = ap suc (length-be_bytes n x)

-- An object of `n` bytes holds any number below 256 ^ n.
pub of_le-le_bytes : (n x : ℕ) → x < 256 ^ n → of_le (le_bytes n x) ≡ x
unfolding le_bytes of_le
of_le-le_bytes zero x h = omega arith
of_le-le_bytes (suc n) x h =
    omega (arith, of_le-le_bytes n (x / 256) (omega (arith, pow-suc 256 n)))

-- The bytes of the object that a list of bytes makes up are that list.
pub le_bytes-of_le : (bs : List ℕ) → AreBytes bs → le_bytes (length bs) (of_le bs) ≡ bs
unfolding le_bytes of_le
le_bytes-of_le [] h = refl
le_bytes-of_le (b ∷ bs) h = ap₂ ◌∷◌ (omega (arith, h.0)) (
    let e : (b + 256 * of_le bs) / 256 ≡ of_le bs = omega (arith, h.0) in
    rw e (le_bytes-of_le bs h.1))

length-reverse : (xs : List ℕ) → length (reverse xs) ≡ length xs
length-reverse [] = refl
length-reverse (x ∷ xs) =
    omega
      (arith, ap length (reverse-cons x xs), length-append (reverse xs) (x ∷ []), length-reverse xs)

reverse-AreBytes : (xs : List ℕ) → AreBytes xs → AreBytes (reverse xs)
reverse-AreBytes [] h = tt
reverse-AreBytes (x ∷ xs) h =
    rw (reverse-cons x xs) (All-append _ (reverse xs) (x ∷ []) (reverse-AreBytes xs h.1) (h.0, tt))

-- The bytes of the swapped number are those of the number, in reverse.
le_bytes-swap_bytes : (n x : ℕ) → le_bytes n (swap_bytes n x) ≡ reverse (le_bytes n x)
unfolding swap_bytes
le_bytes-swap_bytes n x =
    let e : length (reverse (le_bytes n x)) ≡ n =
      length-reverse (le_bytes n x) ∙ length-le_bytes n x in
    subst (λ k. le_bytes k (of_le (reverse (le_bytes n x))) ≡ reverse (le_bytes n x)) e
      (le_bytes-of_le _ (reverse-AreBytes _ (le_bytes-AreBytes n x)))

-- Swapping twice gives the number back.
pub swap_bytes-swap_bytes : (n x : ℕ) → x < 256 ^ n → swap_bytes n (swap_bytes n x) ≡ x
swap_bytes-swap_bytes n x h =
    unfold swap_bytes in
    ap (λ bs. of_le (reverse bs)) (le_bytes-swap_bytes n x)
    ∙ (ap of_le (reverse-reverse (le_bytes n x)) ∙ of_le-le_bytes n x h)

be_bytes-snoc : (n x : ℕ) → be_bytes (suc n) x ≡ be_bytes n (x / 256) ++ (x % 256) ∷ []
unfolding be_bytes
be_bytes-snoc zero x = ap (λ k. k ∷ []) (omega arith)
be_bytes-snoc (suc n) x = ap₂ ◌∷◌ (ap (λ k. k % 256) top) (be_bytes-snoc n x)
  where
    top : x / 256 ^ suc n ≡ x / 256 / 256 ^ n
    top = rw (pow-succ' 256 n) (sym (div-div-eq-div-mul x 256 (256 ^ n)))

reverse-le_bytes : (n x : ℕ) → reverse (le_bytes n x) ≡ be_bytes n x
unfolding le_bytes be_bytes
reverse-le_bytes zero x = refl
reverse-le_bytes (suc n) x =
    reverse-cons (x % 256) (le_bytes n (x / 256))
    ∙ (ap (λ bs. bs ++ (x % 256) ∷ []) (reverse-le_bytes n (x / 256)) ∙ sym (be_bytes-snoc n x))

-- The bytes of a number in network order are its big-endian digits.
pub le_bytes-swap_bytes-eq-be_bytes : (n x : ℕ) → le_bytes n (swap_bytes n x) ≡ be_bytes n x
le_bytes-swap_bytes-eq-be_bytes n x = le_bytes-swap_bytes n x ∙ reverse-le_bytes n x

-- Big-endian digits, read as the bytes of an object and swapped, are the number.
pub swap_bytes-of_le-be_bytes : (n x : ℕ) → x < 256 ^ n → swap_bytes n (of_le (be_bytes n x)) ≡ x
unfolding swap_bytes of_le
swap_bytes-of_le-be_bytes n x h =
    ap (swap_bytes n) (ap of_le (sym (reverse-le_bytes n x))) ∙ swap_bytes-swap_bytes n x h
