-- ===== src/Inspect/Process.antt =====
-- pallette/ProcessInfo.cpp (procname), on the text of /proc/self/stat. `none` is an exception.
use pallette.Base.{
  ℕ, suc, ◌+◌, ◌-◌, ◌≡◌, refl, sym, ap, ◌∙◌, Bool, false, ◌&&◌, List, [], ◌∷◌, ◌++◌, append_assoc,
  Option, none, some, arith,
}
use pallette.Base.Tests.{ltb, ◌==◌, if◌then◌else◌, lt→ltb, le→ltb_false, ==_refl}
use pallette.Base.Lists.{length, take, drop, length-append, drop-append_eq, take-append_le, All}
use pallette.Base.Text.{find, find_after}

abbrev or_here : Bool → Option ℕ → Option ℕ
or_here here (some i) = some (suc i)
or_here here none = if here then some 0 else none

-- `rfind`: the last place of a byte.
unfoldable pub rfind : ℕ → List ℕ → Option ℕ
rfind c [] = none
rfind c (x ∷ xs) = or_here (x == c) (rfind c xs)

-- `assign` with the count `rp - lp - 2`: below 0 it is a huge `size_t`, and `assign` throws.
unfoldable pub between : (lp rp : ℕ) → List ℕ → Option (List ℕ)
between lp rp stat =
    if ltb rp (lp + 2) then none else some (take (rp - lp - 2) (drop (lp + 1) stat))

unfoldable pub name_to : List ℕ → Option ℕ → Option (List ℕ)
name_to stat none = some []
name_to stat (some rp) =
    let lp = find b'(' stat in
    if ltb lp (length stat) && ltb lp rp then between lp rp stat else some []

unfoldable pub procname : List ℕ → Option (List ℕ)
procname stat = name_to stat (rfind b')' stat)

rfind_absent : (c : ℕ) (ys : List ℕ) → All (λ x. (x == c) ≡ false) ys → rfind c ys ≡ none
unfolding rfind
rfind_absent c [] h = refl
rfind_absent c (y ∷ ys) (h, hs) = rw (rfind_absent c ys hs, h) refl

rfind_before :
    (c : ℕ) (xs ys : List ℕ)
    → All (λ x. (x == c) ≡ false) ys
    → rfind c (xs ++ (c ∷ ys)) ≡ some (length xs)
unfolding rfind
rfind_before c [] ys h = rw (rfind_absent c ys h, ==_refl c) refl
rfind_before c (x ∷ xs) ys h = rw (rfind_before c xs ys h) refl

between_lem :
    (pid name rest : List ℕ)
    → between
        (length pid)
        (length pid + suc (length name))
        (pid ++ (b'(' ∷ (name ++ (b')' ∷ rest))))
      ≡ (if length name == 0 then none else some (take (length name - 1) name))
unfolding between
between_lem pid [] rest =
    let h = lt→ltb (length pid + 1) (length pid + 2) (omega arith) in rw h refl
between_lem pid (x ∷ name) rest =
    let stat = pid ++ (b'(' ∷ ((x ∷ name) ++ (b')' ∷ rest))) in
    let rp = length pid + suc (suc (length name)) in
    let h : ltb rp (length pid + 2) ≡ false = le→ltb_false rp (length pid + 2) (omega arith) in
    let n : rp - length pid - 2 ≡ length name = omega arith in
    let d : drop (length pid + 1) stat ≡ (x ∷ name) ++ (b')' ∷ rest) = behind pid in
    let z : (suc (length name) == 0) ≡ false = ground arith in
    let m : suc (length name) - 1 ≡ length name = omega arith in
    rw (h, n, d, z, m)
      (ap some (take-append_le (length name) (x ∷ name) (b')' ∷ rest) (omega arith)))
  where
    behind :
        (pid : List ℕ)
        → drop (length pid + 1) (pid ++ (b'(' ∷ ((x ∷ name) ++ (b')' ∷ rest))))
          ≡ (x ∷ name) ++ (b')' ∷ rest)
    behind pid =
        ap (λ l. drop (length pid + 1) l)
          (sym (append_assoc pid (b'(' ∷ []) ((x ∷ name) ++ (b')' ∷ rest))))
        ∙ drop-append_eq (length pid + 1) (pid ++ (b'(' ∷ [])) ((x ∷ name) ++ (b')' ∷ rest))
            (length-append pid (b'(' ∷ []))

-- From a line with a name in parentheses, behind a number without a parenthesis and before fields
-- without a closing one, `procname` takes all of the name but its last byte; for an empty name it
-- throws.
pub procname_lem :
    (pid name rest : List ℕ)
    → All (λ x. (x == b'(') ≡ false) pid
    → All (λ x. (x == b')') ≡ false) rest
    → procname (pid ++ (b'(' ∷ (name ++ (b')' ∷ rest))))
      ≡ (if length name == 0 then none else some (take (length name - 1) name))
unfolding procname name_to
procname_lem pid name rest hp hr =
    let stat = pid ++ (b'(' ∷ (name ++ (b')' ∷ rest))) in
    let l : length stat ≡ length pid + suc (length name + suc (length rest)) = omega (
      arith,
      length-append pid (b'(' ∷ (name ++ (b')' ∷ rest))),
      length-append name (b')' ∷ rest),
    ) in
    let r : rfind b')' stat ≡ some (length pid + suc (length name)) =
      ap (rfind b')') (sym (append_assoc pid (b'(' ∷ name) (b')' ∷ rest)))
      ∙ rfind_before b')' (pid ++ (b'(' ∷ name)) rest hr
      ∙ ap some (length-append pid (b'(' ∷ name)) in
    rw
      (
        r,
        find_after b'(' pid (name ++ (b')' ∷ rest)) hp,
        lt→ltb (length pid) (length stat) (omega (arith, l)),
        lt→ltb (length pid) (length pid + suc (length name)) (omega arith),
      )
      (between_lem pid name rest)
