-- ===== src/Logging/Stream/Tests.antt =====
-- Log lines put together from concrete items.
use pallette.Base.{ℕ, ◌≡◌, refl, List, [], ◌∷◌, none, some, arith}
use pallette.Base.Int.{negsuc}
use pallette.Base.Text.{codes}
use pallette.Logging.Stream.{
  LogBuffer, empty, small_buffer, convert, Item, integer, pointer, c_string, put_all, append, put,
  format_integer, emit, put_sign, put_pointer, convert_hex,
}
use pallette.Logging.Stream.Digits.{read_decimal, read_decimal-convert}
use pallette.Logging.Stream.Bounds.{Extends, put_all-Extends}

abbrev line : List Item
line = c_string (some (codes "port ")) ∷ integer 32 (negsuc 1999) ∷ pointer 171 ∷ []

put_line :
    put_all (empty small_buffer) line
    ≡ some (record { size = small_buffer; data' = codes "port -20000xAB" })
unfolding put_all put format_integer append convert emit put_sign put_pointer convert_hex
put_line = refl

convert_least : convert 16 (negsuc 32767) ≡ none
unfolding convert emit put_sign
convert_least = refl

read_decimal-convert_example :
    (text : List ℕ) × (convert 32 (negsuc 1999) ≡ some text) × (read_decimal text ≡ negsuc 1999)
read_decimal-convert_example = read_decimal-convert 32 (negsuc 1999) (omega arith, omega arith)

put_all-Extends_example :
    (c : LogBuffer) × (put_all (empty small_buffer) line ≡ some c) × Extends (empty small_buffer) c
put_all-Extends_example =
    put_all-Extends (empty small_buffer) line (omega arith)
      (tt, ((omega arith, omega arith), (omega arith, tt)))
