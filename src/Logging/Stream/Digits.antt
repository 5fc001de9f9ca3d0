-- ===== src/Logging/Stream/Digits.antt =====
-- The digits that `convert` and `convertHex` print, read back.
use native.Mathlib.Nat.{pow-zero, pow-suc, div-add-mod', div-lt_iff_lt-mul, mod-lt}
use pallette.Base.{
  ℕ, zero, suc, ◌+◌, ◌-◌, ◌*◌, ◌/◌, ◌%◌, ◌^◌, ◌≤◌, ◌<◌, ◌≡◌, refl, sym, ap, ◌∙◌, subst, false, inl,
  inr, List, [], ◌∷◌, Option, some, arith,
}
use pallette.Base.Tests.{ltb, ◌==◌, if◌then◌else◌, Bool-cases, ==_iff, lt→ltb}
use pallette.Base.Int.{ℤ, pos, negsuc}
use pallette.Logging.Stream.{emit, decimal_digit, hex_digit, put_sign, convert, convert_hex}

-- The number that digits spell, read from the left after the digits of `n`.
abbrev pub spelled : (base : ℕ) (value : ℕ → ℕ) (n : ℕ) → List ℕ → ℕ
spelled base value n [] = n
spelled base value n (c ∷ cs) = spelled base value (n * base + value c) cs

abbrev Leads : (digit : ℕ → ℕ) → List ℕ → Type 0
Leads digit text = (d : ℕ) × (rest : List ℕ) × (text ≡ digit d ∷ rest)

-- What `emit` finds: its text spells the number, begins with a digit, and takes at most `used` bytes
-- of the room.
abbrev Emits :
    (base : ℕ) (digit value : ℕ → ℕ) (room used n : ℕ) (text : List ℕ)
    → Option (ℕ × List ℕ)
    → Type 0
Emits base digit value room used n text r =
    (left : ℕ) × (text' : List ℕ) × (r ≡ some (left, text'))
    × (spelled base value 0 text' ≡ spelled base value n text)
    × (room ≤ left + used)
    × Leads digit text'

module _ (base : ℕ) (digit value : ℕ → ℕ) (positive : 0 < base)
    (inverse : (d : ℕ) → d < base → value (digit d) ≡ d) where
  emit-Emits :
      (room used n : ℕ) (text : List ℕ)
      → n < base ^ used
      → 0 < used
      → used ≤ room
      → Emits base digit value room used n text (emit base digit room n text)
  unfolding emit
  emit-Emits zero used n text h p u = absurd (omega (arith, p, u))
  emit-Emits (suc room) zero n text h p u = absurd (omega (arith, p))
  emit-Emits (suc room) (suc used) n text h p u =
      let digits = digit (n % base) ∷ text in
      let v : spelled base value (n / base) digits ≡ spelled base value n text =
        ap (λ k. spelled base value k text)
          (ap (λ d. n / base * base + d) (inverse (n % base) (mod-lt n positive))
            ∙ div-add-mod' n base) in
      elim (Bool-cases (n / base == 0)) [
        | inl last ↦
            let z = (==_iff (n / base) 0).0 last in
            rw last (
              room,
              digits,
              refl,
              ap (λ k. spelled base value k digits) (sym z) ∙ v,
              omega arith,
              (n % base, text, refl),
            )
        | inr more ↦
            let q : n / base < base ^ used =
              (div-lt_iff_lt-mul positive).1 (subst (λ k. n < k) (pow-suc base used) h) in
            let (left, text', e, s, l, f) =
              emit-Emits room used (n / base) digits q (used_left used (n / base) q more)
                (omega (arith, u)) in
            rw more (left, text', e, s ∙ v, omega (arith, l), f)
      ]
    where
      used_left : (used k : ℕ) → k < base ^ used → (k == 0) ≡ false → 0 < used
      used_left zero k h e =
          let h' : k < 1 = subst (λ x. k < x) (pow-zero base) h in absurd (ground arith)
      used_left (suc used) k h e = omega arith

-- The number that a text spells, after a minus sign or without one.
abbrev pub spelled_value : List ℕ → ℤ
spelled_value text = pos (spelled 10 (λ c. c - b'0') 0 text)

abbrev pub read_decimal : List ℕ → ℤ
read_decimal [] = pos 0
read_decimal (c ∷ cs) =
    if c == b'-' then negsuc (spelled 10 (λ c. c - b'0') 0 cs - 1) else spelled_value (c ∷ cs)

abbrev pub hex_value : ℕ → ℕ
hex_value c = if ltb c b'A' then c - b'0' else c - b'A' + 10

decimal_inverse : (d : ℕ) → d < 10 → decimal_digit d - b'0' ≡ d
decimal_inverse d h = omega arith

hex_inverse : (d : ℕ) → d < 16 → hex_value (hex_digit d) ≡ d
hex_inverse d h = ground arith

digit_lem : (d : ℕ) → (b'0' + d == b'-') ≡ false
digit_lem d = ground arith

decimal_lem :
    (n : ℕ)
    → n < 2 ^ 64
    → (left : ℕ) × (text : List ℕ) × (emit 10 decimal_digit 31 n [] ≡ some (left, text))
      × (spelled 10 (λ c. c - b'0') 0 text ≡ n)
      × (31 ≤ left + 20)
      × Leads decimal_digit text
decimal_lem n h =
    emit-Emits 10 decimal_digit (λ c. c - b'0') (omega arith) decimal_inverse 31 20 n []
      (omega (arith, h)) (omega arith) (omega arith)

-- What the integer of a type with `bits` bits can be, but for the least negative one.
abbrev pub InRange : (bits : ℕ) → ℤ → Type 0
InRange bits (pos n) = n < 2 ^ 64
InRange bits (negsuc n) = (suc n < 2 ^ (bits - 1)) × (n < 2 ^ 63)

-- `convert` prints every integer but the least one of its type within the array of digits, and the
-- text is read back as the integer.
pub read_decimal-convert :
    (bits : ℕ) (z : ℤ)
    → InRange bits z
    → (text : List ℕ) × (convert bits z ≡ some text) × (read_decimal text ≡ z)
unfolding convert put_sign
read_decimal-convert bits (pos n) h =
    let (left, text, e, s, l, (d, rest, f)) = decimal_lem n h in
    (
      text,
      rw e refl,
      rw f (rw (digit_lem d) (ap pos (ap (spelled 10 (λ c. c - b'0') 0) (sym f) ∙ s))),
    )
read_decimal-convert bits (negsuc n) (h, k) =
    let (left, text, e, s, l, f) = decimal_lem (suc n) (omega (arith, k)) in
    (
      b'-' ∷ text,
      rw (lt→ltb (suc n) (2 ^ (bits - 1)) h, e) (sign left text l),
      ap (λ v. negsuc (v - 1)) s ∙ ap negsuc (omega arith),
    )
  where
    sign : (left : ℕ) (text : List ℕ) → 31 ≤ left + 20 → put_sign (left, text) ≡ some (b'-' ∷ text)
    sign zero text l = absurd (omega (arith, l))
    sign (suc left) text l = refl

-- `convertHex` prints every pointer within the array of digits, and the text is read back.
pub spelled-convert_hex :
    (n : ℕ)
    → n < 2 ^ 64
    → (text : List ℕ) × (convert_hex n ≡ some text) × (spelled 16 hex_value 0 text ≡ n)
unfolding convert_hex
spelled-convert_hex n h =
    let (left, text, e, s, l, f) =
      emit-Emits 16 hex_digit hex_value (omega arith) hex_inverse 31 16 n [] (omega (arith, h))
        (omega arith) (omega arith) in
    (text, rw e refl, s)
