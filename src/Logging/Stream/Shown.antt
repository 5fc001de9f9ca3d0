-- ===== src/Logging/Stream/Shown.antt =====
-- What a chain of `<<` leaves in a buffer that has the room: the texts of the items, in order.
use pallette.Base.{
  ℕ, ◌+◌, ◌≤◌, ◌<◌, ◌≡◌, refl, sym, ap, ◌∙◌, inl, inr, ◌⊎◌, List, [], ◌∷◌, ◌++◌, Option, none, some,
  arith, append_assoc, append-nil,
}
use pallette.Base.Tests.{
  ltb, if◌then◌else◌, lt→ltb, le→leb, Bool-cases, ltb→lt, ltb_false→le, some_inj,
}
use pallette.Base.Lists.{length, joined, length-append, All}
use pallette.Base.Text.{codes}
use pallette.Buffer.Results.{bind_some}
use pallette.Logging.Stream.{
  LogBuffer, avail, append, max_number_size, Item, bool, integer, double, char, c_string, pointer,
  string, format_integer, put_pointer, put, put_all,
}
use pallette.Logging.Stream.Digits.{
  read_decimal, spelled, hex_value, read_decimal-convert, spelled-convert_hex,
}
use pallette.Logging.Stream.Bounds.{Fits}

-- The text of an item: a number is read back from it.
abbrev pub Shows : Item → List ℕ → Type 0
Shows (bool v) text = text ≡ (if v then codes "1" else codes "0")
Shows (integer bits v) text = read_decimal text ≡ v
Shows (double printed) text = text ≡ printed
Shows (char c) text = text ≡ c ∷ []
Shows (c_string none) text = text ≡ codes "(NULL)"
Shows (c_string (some s)) text = text ≡ s
Shows (pointer v) text =
    (digits : List ℕ) × (text ≡ codes "0x" ++ digits) × (spelled 16 hex_value 0 digits ≡ v)
Shows (string s) text = text ≡ s

abbrev pub ShowAll : List Item → List (List ℕ) → Type 0
ShowAll [] [] = Unit
ShowAll [] (t ∷ ts) = ⊥
ShowAll (i ∷ is) [] = ⊥
ShowAll (i ∷ is) (t ∷ ts) = Shows i t × ShowAll is ts

abbrev with_text : LogBuffer → List ℕ → LogBuffer
with_text b text = record b { data' = b.data' ++ text }

-- More room than the text takes, and than a number asks for.
abbrev pub HasRoom : LogBuffer → List ℕ → Type 0
HasRoom b text = length b.data' + length text + 33 ≤ b.size

append-with_text : (b : LogBuffer) (xs : List ℕ) → HasRoom b xs → append b xs ≡ with_text b xs
unfolding append
append-with_text b xs h = rw (lt→ltb (length xs) (avail b) (omega (arith, h))) refl

-- What holds with room holds, or there is none.
abbrev pub Fills : LogBuffer → List ℕ → Option LogBuffer → Type 0
Fills b text r = (b.size < length b.data' + length text + 33) ⊎ (r ≡ some (with_text b text))

with_room :
    (b : LogBuffer) (text : List ℕ) (r : Option LogBuffer)
    → (HasRoom b text → r ≡ some (with_text b text))
    → Fills b text r
with_room b text r f = elim (Bool-cases (ltb b.size (length b.data' + length text + 33))) [
  | inl full ↦ inl (ltb→lt _ _ full)
  | inr room ↦ inr (f (ltb_false→le _ _ room))
]

Fills-append : (b : LogBuffer) (text : List ℕ) → Fills b text (some (append b text))
Fills-append b text = with_room b text _ (λ h. ap some (append-with_text b text h))

-- An item that fits shows a text, which is what is appended where there is room for it.
put-Shows :
    (b : LogBuffer) (i : Item) → Fits i → (text : List ℕ) × Shows i text × Fills b text (put b i)
unfolding put format_integer put_pointer
put-Shows b (bool v) f = (_, refl, Fills-append b _)
put-Shows b (integer bits v) f =
    let (text, e, k) = read_decimal-convert bits v f in
    (
      text,
      k,
      with_room b text _ (λ h.
          rw (lt→ltb max_number_size (avail b) (omega (arith, h)), e)
            (ap some (append-with_text b text h))),
    )
put-Shows b (double printed) f = (
  printed,
  refl,
  with_room b printed _ (λ h.
      rw (le→leb max_number_size (avail b) (omega (arith, h)))
        (ap some (append-with_text b printed h))),
)
put-Shows b (char c) f = (_, refl, Fills-append b _)
put-Shows b (c_string none) f = (_, refl, Fills-append b _)
put-Shows b (c_string (some text)) f = (_, refl, Fills-append b _)
put-Shows b (pointer v) f =
    let (digits, e, k) = spelled-convert_hex v f in
    (
      codes "0x" ++ digits,
      (digits, refl, k),
      with_room b (codes "0x" ++ digits) _ (λ h.
          rw (lt→ltb max_number_size (avail b) (omega (arith, h)), e)
            (rw (append-with_text b (codes "0x") (omega (arith, h))) (
              rw
                (append-with_text (with_text b (codes "0x")) digits
                  (omega (arith, h, length-append b.data' (codes "0x"))))
                (ap (λ t. some (record b { data' = t }))
                  (append_assoc b.data' (codes "0x") digits))))),
    )
put-Shows b (string text) f = (_, refl, Fills-append b _)

-- For items that fit, put one after another: each shows a text, and where the buffer has room for all
-- texts and 33 bytes more, it then holds exactly these texts, in order, behind what it held.
pub put_all-Shows :
    (b : LogBuffer) (items : List Item)
    → All Fits items
    → (texts : List (List ℕ)) × ShowAll items texts × Fills b (joined texts) (put_all b items)
unfolding put_all
put_all-Shows b [] f = (
  [],
  tt,
  with_room b [] _ (λ h. ap (λ t. some (record b { data' = t })) (sym (append-nil b.data'))),
)
put_all-Shows b (i ∷ items) (f, fs) =
    let (t, s, d) = put-Shows b i f in
    let (ts, ss, ds) = put_all-Shows (with_text b t) items fs in
    (
      t ∷ ts,
      (s, ss),
      elim d [
        | inl full ↦ inl (omega (arith, full, length-append t (joined ts)))
        | inr e ↦ elim ds [
          | inl full ↦
              inl (omega (arith, full, length-append t (joined ts), length-append b.data' t))
          | inr e' ↦ inr (
              rw e
                (e' ∙ ap (λ t. some (record b { data' = t })) (append_assoc b.data' t (joined ts))))
        ]
      ],
    )

pub put_all-append :
    (b c : LogBuffer) (xs ys : List Item)
    → put_all b xs ≡ some c
    → put_all b (xs ++ ys) ≡ put_all c ys
unfolding put_all
put_all-append b c [] ys e = ap (λ b. put_all b ys) (some_inj e)
put_all-append b c (x ∷ xs) ys e =
    let (d, p, q) = bind_some (put b x) _ c e in rw p (put_all-append d c xs ys q)
