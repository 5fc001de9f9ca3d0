-- ===== src/Buffer/Search.antt =====
-- `findSubString`: it finds the first occurrence among the bytes held.
use pallette.Base.{
  ℕ, zero, suc, ◌+◌, ◌<◌, ◌≡◌, refl, ap, ◌∙◌, true, false, List, [], ◌∷◌, ◌++◌, Option, none, some,
  arith, sym, inl, inr, subst,
}
use pallette.Base.Tests.{◌==◌, if◌then◌else◌, le→leb, Bool-cases, some_inj}
use pallette.Base.Lists.{length, take, drop, take-append-drop, drop-drop}
use pallette.Buffer.Slices.{starts_with, memmem}
use pallette.Buffer.{Buffer, peek, find_sub_string}
use pallette.Buffer.Inv.{Holds, slice-contents, readable_bytes-eq}
use pallette.Buffer.Reads.{length-Holds}
use mathlib.Core.Option

-- The bytes stand in `xs` from offset `k` on, and from no offset before it.
pub record IsFirst (xs needle : List ℕ) (k : ℕ) : Type 0 where
  pub here : starts_with (drop k xs) needle ≡ true
  pub not_before : (j : ℕ) → j < k → starts_with (drop j xs) needle ≡ false

abbrev pub Answer : List ℕ → List ℕ → Option ℕ → Type 0
Answer xs needle (some k) = IsFirst xs needle k
Answer xs needle none = (j : ℕ) → starts_with (drop j xs) needle ≡ false

IsFirst-suc :
    (x : ℕ) (xs needle : List ℕ) (k : ℕ)
    → starts_with (x ∷ xs) needle ≡ false
    → IsFirst xs needle k
    → IsFirst (x ∷ xs) needle (suc k)
IsFirst-suc x xs needle k miss f = record { here = f.here; not_before = before }
  where
    before : (j : ℕ) → j < suc k → starts_with (drop j (x ∷ xs)) needle ≡ false
    before zero h = miss
    before (suc j) h = f.not_before j (omega arith)

Answer-suc :
    (x : ℕ) (xs needle : List ℕ) (r : Option ℕ)
    → starts_with (x ∷ xs) needle ≡ false
    → Answer xs needle r
    → Answer (x ∷ xs) needle (Option.map suc r)
Answer-suc x xs needle none miss f = never
  where
    never : (j : ℕ) → starts_with (drop j (x ∷ xs)) needle ≡ false
    never zero = miss
    never (suc j) = f j
Answer-suc x xs needle (some k) miss f = IsFirst-suc x xs needle k miss f

none_before : (xs needle : List ℕ) (j : ℕ) → j < 0 → starts_with (drop j xs) needle ≡ false
none_before xs needle j h = elim h [ ]

pub memmem-Answer : (xs : List ℕ) (n : ℕ) (ns : List ℕ) → Answer xs (n ∷ ns) (memmem xs (n ∷ ns))
unfolding memmem starts_with
memmem-Answer [] n ns = never
  where
    never : (j : ℕ) → starts_with (drop j []) (n ∷ ns) ≡ false
    never zero = refl
    never (suc j) = refl
memmem-Answer (x ∷ xs) n ns = elim (Bool-cases (starts_with (x ∷ xs) (n ∷ ns))) [
  | inl hit ↦ rw (hit, memmem) (record { here = hit; not_before = none_before (x ∷ xs) (n ∷ ns) })
  | inr miss ↦ rw (miss, memmem) (Answer-suc x xs (n ∷ ns) _ miss (memmem-Answer xs n ns))
]

map-suc-lt :
    (r : Option ℕ) (m k : ℕ)
    → ((j : ℕ) → r ≡ some j → j < m)
    → Option.map suc r ≡ some k
    → k < suc m
map-suc-lt none m k f e = cc
map-suc-lt (some j) m k f e = let s : suc j ≡ k = some_inj e in omega (arith, f j refl, s)

-- A pattern that is not empty is found inside the text.
pub memmem-lt :
    (xs : List ℕ) (n : ℕ) (ns : List ℕ) (k : ℕ) → memmem xs (n ∷ ns) ≡ some k → k < length xs
unfolding memmem starts_with
memmem-lt [] n ns k e = cc
memmem-lt (x ∷ xs) n ns k e = elim (Bool-cases (starts_with (x ∷ xs) (n ∷ ns))) [
  | inl hit ↦ let s : 0 ≡ k = some_inj (rw (hit, memmem) at e) in omega (arith, s)
  | inr miss ↦
      map-suc-lt (memmem xs (n ∷ ns)) (length xs) k (λ j. memmem-lt xs n ns j)
        (rw (miss, memmem) at e)
]

-- What `findSubString` answers on a pattern that is not empty, searched from `peek`.
pub find_sub_string_lem :
    (b : Buffer) (xs : List ℕ) (n : ℕ) (ns : List ℕ)
    → Holds b xs
    → find_sub_string b (n ∷ ns) (peek b) ≡ some (Option.map (λ k. peek b + k) (memmem xs (n ∷ ns)))
unfolding find_sub_string
find_sub_string_lem b xs n ns h =
    rw
      (
        le→leb b.read_index b.read_index (omega arith),
        le→leb b.read_index b.write_index h.valid.ordered,
        ← readable_bytes-eq h.valid,
        slice-contents h.valid,
        h.bytes,
      )
      (found (memmem xs (n ∷ ns)) refl)
  where
    found :
        (r : Option ℕ)
        → memmem xs (n ∷ ns) ≡ r
        → (elim r [
          | none ↦ some none
          | some k ↦
              if b.read_index + k == b.write_index
              then some none
              else some (some (b.read_index + k))
        ])
          ≡ some (Option.map (λ k. b.read_index + k) r)
    found none e = refl
    found (some k) e = ground (arith, memmem-lt xs n ns k, length-Holds b xs h, h.valid.ordered)

-- What starts with a pattern is the pattern and a rest.
pub starts_with-append :
    (xs ns : List ℕ) → starts_with xs ns ≡ true → xs ≡ ns ++ drop (length ns) xs
unfolding starts_with
starts_with-append xs [] e = refl
starts_with-append [] (n ∷ ns) e = cc
starts_with-append (x ∷ xs) (n ∷ ns) e = ground (arith, starts_with-append xs ns)

-- The text round the first occurrence of a pattern.
pub memmem-split :
    (xs : List ℕ) (n : ℕ) (ns : List ℕ) (k : ℕ)
    → memmem xs (n ∷ ns) ≡ some k
    → xs ≡ take k xs ++ ((n ∷ ns) ++ drop (k + length (n ∷ ns)) xs)
memmem-split xs n ns k e =
    sym (take-append-drop k xs)
    ∙ ap (◌++◌ (take k xs)) (
        starts_with-append (drop k xs) (n ∷ ns) first.here
        ∙ ap (◌++◌ (n ∷ ns)) (drop-drop (length (n ∷ ns)) k xs))
  where
    first : IsFirst xs (n ∷ ns) k
    first = subst (Answer xs (n ∷ ns)) e (memmem-Answer xs n ns)
