-- ===== src/Logging/Stream.antt =====
-- pallette/LogStream.h and LogStream.cpp. A buffer is its size and the bytes up to `cur_`. What
-- snprintf prints of a double is an argument. `none` is undefined behaviour: the negation of the
-- least value of a type, or a write before the array of digits.
pub mod Digits
pub mod Bounds
pub mod Shown
mod Tests
use pallette.Base.{
  ℕ, zero, suc, ◌+◌, ◌-◌, ◌*◌, ◌/◌, ◌%◌, ◌^◌, Bool, true, false, List, [], ◌∷◌, ◌++◌, Option, none,
  some,
}
use pallette.Base.Tests.{ltb, leb, ◌==◌, if◌then◌else◌}
use pallette.Base.Int.{ℤ, pos, negsuc}
use pallette.Base.Lists.{length, take}
use pallette.Base.Text.{codes}
use pallette.Buffer.{◌>>=◌, ◌>>◌, guard}

pub record LogBuffer : Type 0 where
  pub size : ℕ
  pub data' : List ℕ

abbrev pub small_buffer : ℕ
small_buffer = 4000

abbrev pub large_buffer : ℕ
large_buffer = 4000 * 1000

abbrev pub max_number_size : ℕ
max_number_size = 32

abbrev pub empty : ℕ → LogBuffer
empty size = record { size = size; data' = [] }

abbrev pub avail : LogBuffer → ℕ
avail b = b.size - length b.data'

unfoldable pub append : LogBuffer → List ℕ → LogBuffer
append b xs =
    if ltb (length xs) (avail b)
    then record b { data' = b.data' ++ xs }
    else record b { data' = b.data' ++ take (avail b) xs }

abbrev pub reset : LogBuffer → LogBuffer
reset b = record b { data' = [] }

-- The loop of `convert` and `convertHex`: `room` bytes of the array are left before `ptr`, and the
-- text from `ptr` on is `text`.
unfoldable pub emit : (base : ℕ) (digit : ℕ → ℕ) (room n : ℕ) (text : List ℕ) → Option (ℕ × List ℕ)
emit base digit zero n text = none
emit base digit (suc room) n text =
    let text' = digit (n % base) ∷ text in
    let rest = emit base digit room (n / base) text' in
    if n / base == 0 then some (room, text') else rest

abbrev pub decimal_digit : ℕ → ℕ
decimal_digit d = b'0' + d

abbrev pub hex_digit : ℕ → ℕ
hex_digit d = if ltb d 10 then b'0' + d else b'A' + (d - 10)

unfoldable pub put_sign : ℕ × List ℕ → Option (List ℕ)
put_sign (zero, text) = none
put_sign (suc room, text) = some (b'-' ∷ text)

-- `bits` is the width of the type, 0 for an unsigned one.
unfoldable pub convert : (bits : ℕ) → ℤ → Option (List ℕ)
convert bits (pos n) = emit 10 decimal_digit 31 n [] >>= λ r. some r.1
convert bits (negsuc n) =
    guard (ltb (suc n) (2 ^ (bits - 1))) >> (emit 10 decimal_digit 31 (suc n) [] >>= put_sign)

pub convert_hex : ℕ → Option (List ℕ)
convert_hex n = emit 16 hex_digit 31 n [] >>= λ r. some r.1

-- What is put into the stream by the overloads of `<<`.
pub data Item : Type 0 where
  bool : Bool → Item
  integer : (bits : ℕ) → ℤ → Item
  double : (printed : List ℕ) → Item
  char : ℕ → Item
  c_string : Option (List ℕ) → Item
  pointer : ℕ → Item
  string : List ℕ → Item

unfoldable pub format_integer : LogBuffer → ℕ → ℤ → Option LogBuffer
format_integer b bits value =
    if ltb max_number_size (avail b)
    then (convert bits value >>= λ text. some (append b text))
    else some b

pub put_pointer : LogBuffer → ℕ → Option LogBuffer
put_pointer b v =
    if ltb max_number_size (avail b)
    then (convert_hex v >>= λ text. some (append (append b (codes "0x")) text))
    else some b

unfoldable pub put : LogBuffer → Item → Option LogBuffer
put b (bool v) = some (append b (if v then codes "1" else codes "0"))
put b (integer bits v) = format_integer b bits v
put b (double printed) = some (if leb max_number_size (avail b) then append b printed else b)
put b (char c) = some (append b (c ∷ []))
put b (c_string none) = some (append b (codes "(NULL)"))
put b (c_string (some text)) = some (append b text)
put b (pointer v) = put_pointer b v
put b (string text) = some (append b text)

-- A chain of `<<`.
unfoldable pub put_all : LogBuffer → List Item → Option LogBuffer
put_all b [] = some b
put_all b (x ∷ xs) = put b x >>= λ b'. put_all b' xs
