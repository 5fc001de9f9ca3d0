-- ===== src/Logging/Format.antt =====
-- `stringFormat` of pallette/Strings.cpp. `vsnprintf` is an argument: for the size of a buffer, its
-- result and the bytes of the buffer after it. The rounds of the loop are fuel.
use pallette.Base.{
  ℕ, zero, suc, ◌+◌, ◌*◌, ◌<◌, ◌≡◌, refl, ap, Bool, false, inl, inr, List, [], Option, none, some,
  arith,
}
use pallette.Base.Tests.{ltb, if◌then◌else◌, Bool-cases, lt→ltb, ltb→lt}
use pallette.Base.Int.{ℤ, pos, negsuc}
use pallette.Base.Lists.{length, take}

abbrev pub first_size : ℕ
first_size = 100

-- `n > -1 && n < (int)stringSize`.
unfoldable pub fits : ℤ → ℕ → Bool
fits (pos n) size = ltb n size
fits (negsuc n) size = false

unfoldable pub next_size : ℤ → ℕ → ℕ
next_size (pos n) size = n + 1
next_size (negsuc n) size = size * 2

unfoldable pub resize : ℤ → List ℕ → List ℕ
resize (pos n) text = take n text
resize (negsuc n) text = []

unfoldable pub format_loop : (vsnprintf : ℕ → ℤ × List ℕ) → (fuel size : ℕ) → Option (List ℕ)
format_loop vsnprintf zero size = none
format_loop vsnprintf (suc fuel) size =
    let n = (vsnprintf size).0 in
    let rest = format_loop vsnprintf fuel (next_size n size) in
    if fits n size then some (resize n (vsnprintf size).1) else rest

unfoldable pub string_format : (vsnprintf : ℕ → ℤ × List ℕ) → (fuel : ℕ) → Option (List ℕ)
string_format vsnprintf fuel = format_loop vsnprintf fuel first_size

-- What is documented of `vsnprintf` for a text: the result is the text's length whatever the size,
-- and a buffer that has the room holds the text.
abbrev pub Prints : (ℕ → ℤ × List ℕ) → List ℕ → Type 0
Prints vsnprintf text =
    (size : ℕ)
    → ((vsnprintf size).0 ≡ pos (length text))
      × ((length text < size) → take (length text) (vsnprintf size).1 ≡ text)

format_loop-fits :
    (vsnprintf : ℕ → ℤ × List ℕ) (text : List ℕ)
    → Prints vsnprintf text
    → (fuel size : ℕ) → length text < size
    → format_loop vsnprintf (suc fuel) size ≡ some text
unfolding format_loop fits resize
format_loop-fits vsnprintf text p fuel size h =
    rw (p size).0 (rw (lt→ltb (length text) size h) (ap some ((p size).1 h)))

-- Where `vsnprintf` prints a text, of any length, two rounds of the loop are enough for
-- `stringFormat` to give exactly that text.
pub string_format_lem :
    (vsnprintf : ℕ → ℤ × List ℕ) (text : List ℕ)
    → Prints vsnprintf text
    → (fuel : ℕ) → string_format vsnprintf (suc (suc fuel)) ≡ some text
unfolding string_format format_loop fits next_size
string_format_lem vsnprintf text p fuel = elim (Bool-cases (ltb (length text) first_size)) [
  | inl h ↦ format_loop-fits vsnprintf text p (suc fuel) first_size (ltb→lt _ _ h)
  | inr h ↦
      rw (p first_size).0
        (rw h (format_loop-fits vsnprintf text p fuel (length text + 1) (omega arith)))
]

-- Where `vsnprintf` answers an error for every size, no number of rounds ends the loop.
format_loop_error :
    (vsnprintf : ℕ → ℤ × List ℕ) (e : ℕ)
    → ((size : ℕ) → (vsnprintf size).0 ≡ negsuc e)
    → (fuel size : ℕ) → format_loop vsnprintf fuel size ≡ none
unfolding format_loop fits next_size
format_loop_error vsnprintf e h zero size = refl
format_loop_error vsnprintf e h (suc fuel) size =
    rw (h size) (format_loop_error vsnprintf e h fuel (size * 2))
