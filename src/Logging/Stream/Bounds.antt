-- ===== src/Logging/Stream/Bounds.antt =====
-- A log buffer never holds more than its size, and what it holds stays.
use pallette.Base.{
  ℕ, ◌+◌, ◌-◌, ◌^◌, ◌≤◌, ◌<◌, ◌≡◌, refl, sym, ap, ◌∙◌, Bool, true, false, inl, inr, List, [], ◌∷◌,
  ◌++◌, Option, none, some, arith, append_assoc, append-nil,
}
use pallette.Base.Tests.{ltb, leb, if◌then◌else◌, Bool-cases, ltb→lt}
use pallette.Base.Lists.{length, take, length-append, length-take, take_all, All, take-append_add}
use pallette.Base.Text.{codes}
use pallette.Buffer.{◌>>=◌}
use pallette.Logging.Stream.{
  LogBuffer, avail, append, max_number_size, Item, bool, integer, double, char, c_string, pointer,
  string, format_integer, put_pointer, put, put_all,
}
use pallette.Logging.Stream.Digits.{InRange, read_decimal-convert, spelled-convert_hex}

abbrev pub IsValid : LogBuffer → Type 0
IsValid b = length b.data' ≤ b.size

-- The buffer `c` has the size of `b`, is not overfull, and holds what `b` holds, and more behind.
pub record Extends (b c : LogBuffer) : Type 0 where
  pub same_size : c.size ≡ b.size
  pub valid : IsValid c
  pub more : List ℕ
  pub kept : c.data' ≡ b.data' ++ more

Extends-refl : (b : LogBuffer) → IsValid b → Extends b b
Extends-refl b v = record {
  same_size = refl;
  valid = v;
  more = [];
  kept = sym (append-nil b.data');
}

pub Extends-trans : (b c d : LogBuffer) → Extends b c → Extends c d → Extends b d
Extends-trans b c d e f = record {
  same_size = f.same_size ∙ e.same_size;
  valid = f.valid;
  more = e.more ++ f.more;
  kept = f.kept ∙ ap (λ xs. xs ++ f.more) e.kept ∙ append_assoc b.data' e.more f.more;
}

-- `append` keeps what fits: the buffer holds the first bytes, as many as its size, of what it held
-- followed by what is appended.
pub append-take :
    (b : LogBuffer) (xs : List ℕ) → IsValid b → (append b xs).data' ≡ take b.size (b.data' ++ xs)
unfolding append
append-take b xs v = elim (Bool-cases (ltb (length xs) (avail b))) [
  | inl fits ↦ rw fits (
      sym (
        take_all b.size (b.data' ++ xs) (omega (arith, length-append b.data' xs, ltb→lt _ _ fits))))
  | inr cut ↦ rw cut (
      sym (
        take-append_add (b.size - length b.data') b.size b.data' xs
          (split b.size (length b.data') v)))
]
  where
    split : (s n : ℕ) → n ≤ s → s ≡ n + (s - n)
    split s n h = omega (arith, h)

pub append-Extends : (b : LogBuffer) (xs : List ℕ) → IsValid b → Extends b (append b xs)
unfolding append
append-Extends b xs v = elim (Bool-cases (ltb (length xs) (avail b))) [
  | inl fits ↦ simp fits (record {
    same_size = refl;
    valid = omega (arith, length-append b.data' xs, ltb→lt _ _ fits);
    more = xs;
    kept = refl;
  })
  | inr cut ↦ simp cut (record {
    same_size = refl;
    valid = omega (arith, v, length-append b.data' (take (avail b) xs), length-take (avail b) xs);
    more = take (avail b) xs;
    kept = refl;
  })
]

-- What can be put: an integer of the range of its type and not the least value of it, an address of
-- 64 bits.
abbrev pub Fits : Item → Type 0
Fits (integer bits v) = InRange bits v
Fits (pointer v) = v < 2 ^ 64
Fits (bool v) = Unit
Fits (double printed) = Unit
Fits (char c) = Unit
Fits (c_string text) = Unit
Fits (string text) = Unit

abbrev Puts : LogBuffer → Option LogBuffer → Type 0
Puts b r = (c : LogBuffer) × (r ≡ some c) × Extends b c

Puts-if :
    (t : Bool) (b : LogBuffer) (r : Option LogBuffer)
    → IsValid b
    → Puts b r
    → Puts b (if t then r else some b)
Puts-if true b r v p = p
Puts-if false b r v p = (b, refl, Extends-refl b v)

put-Puts : (b : LogBuffer) (i : Item) → IsValid b → Fits i → Puts b (put b i)
unfolding put format_integer put_pointer
put-Puts b (bool v) h f = (_, refl, append-Extends b (if v then codes "1" else codes "0") h)
put-Puts b (integer bits v) h f =
    let (text, e, _) = read_decimal-convert bits v f in
    Puts-if (ltb max_number_size (avail b)) b _ h
      (append b text, ap (λ r. r >>= λ text. some (append b text)) e, append-Extends b text h)
put-Puts b (double printed) h f = elim (Bool-cases (leb max_number_size (avail b))) [
  | inl fits ↦ rw fits (_, refl, append-Extends b printed h)
  | inr full ↦ rw full (_, refl, Extends-refl b h)
]
put-Puts b (char c) h f = (_, refl, append-Extends b (c ∷ []) h)
put-Puts b (c_string none) h f = (_, refl, append-Extends b (codes "(NULL)") h)
put-Puts b (c_string (some text)) h f = (_, refl, append-Extends b text h)
put-Puts b (pointer v) h f =
    let (text, e, _) = spelled-convert_hex v f in
    let first = append-Extends b (codes "0x") h in
    Puts-if (ltb max_number_size (avail b)) b _ h (
      append (append b (codes "0x")) text,
      ap (λ r. r >>= λ text. some (append (append b (codes "0x")) text)) e,
      Extends-trans b _ _ first (append-Extends _ text first.valid),
    )
put-Puts b (string text) h f = (_, refl, append-Extends b text h)

-- For items put one after another into a buffer that is not overfull, none of which is the least value
-- of a signed type (where there is room for a number, `convert` of that value is undefined behaviour):
-- all of them can be put, the buffer is not overfull after them, its size is the same, and what it held
-- is still in front.
pub put_all-Extends :
    (b : LogBuffer) (items : List Item)
    → IsValid b
    → All Fits items
    → (c : LogBuffer) × (put_all b items ≡ some c) × Extends b c
unfolding put_all
put_all-Extends b [] v f = (b, refl, Extends-refl b v)
put_all-Extends b (i ∷ items) v (f, fs) =
    let (c, e, x) = put-Puts b i v f in
    let (d, e', y) = put_all-Extends c items x.valid fs in
    (d, ap (λ r. r >>= λ c. put_all c items) e ∙ e', Extends-trans b c d x y)
