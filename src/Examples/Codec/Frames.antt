-- ===== src/Examples/Codec/Frames.antt =====
-- A message on the wire: its length, and then the message.
use native.Mathlib.Nat.{mod-eq_of_lt}
use pallette.Base.{ℕ, ◌%◌, ◌^◌, ◌≤◌, ◌<◌, ◌≡◌, refl, ap, ◌∙◌, List, [], ◌∷◌, ◌++◌, some, arith}
use pallette.Base.{sym, subst}
use pallette.Base.{◌+◌}
use pallette.Base.Lists.{length-append}
use pallette.Endian.Laws.{length-be_bytes}
use pallette.Base.Lists.{length}
use pallette.Endian.{be_bytes}
use pallette.Buffer.{
  Buffer, ◌>>=◌, append, prepend, string_at, buffer_to_string, peek, readable_bytes,
}
use pallette.Buffer
use pallette.Buffer.Inv.{new-Holds}
use pallette.Buffer.Ops.{append_lem}
use pallette.Buffer.Reads.{buffer_to_string_lem}
use pallette.Buffer.Integers.RoundTrip.{prepend_int32_lem}
use pallette.Examples.Codec.{send}

abbrev pub frame : List ℕ → List ℕ
frame m = be_bytes 4 (length m) ++ m

abbrev pub frames : List (List ℕ) → List ℕ
frames [] = []
frames (m ∷ ms) = be_bytes 4 (length m) ++ (m ++ frames ms)

pub send_lem : (m : List ℕ) → length m + 4 < 2 ^ 31 → send m ≡ some (frame m)
unfolding send
send_lem m h =
    let (b1, e1, h1) = append_lem (Buffer.new 1024) [] m (new-Holds 1024) in
    let (b2, e2, v, c) = prepend_int32_lem b1 (length m % 2 ^ 32) m h1 in
    let c' = c ∙ ap (λ n. be_bytes 4 n ++ m) (mod-eq_of_lt (omega (arith, h))) in
    rw (e1, e2, buffer_to_string_lem v (subst (λ t. length t < 2 ^ 31) (sym c') room)) (ap some c')
  where
    room : length (frame m) < 2 ^ 31
    room = omega (arith, h, length-append (be_bytes 4 (length m)) m, length-be_bytes 4 (length m))

-- A text that begins two ways.
pub split_prefix {ℓ} :
    {A : Type ℓ} (xs ys zs ws : List A)
    → xs ++ ys ≡ zs ++ ws
    → length zs ≤ length xs
    → (rest : List A) × (xs ≡ zs ++ rest) × (rest ++ ys ≡ ws)
split_prefix xs ys [] ws e h = (xs, refl, e)
split_prefix [] ys (z ∷ zs) ws e h = absurd (omega (arith, h))
split_prefix (x ∷ xs) ys (z ∷ zs) ws e h =
    let (rest, f, g) = split_prefix xs ys zs ws (cc) (omega (arith, h)) in (rest, cc, g)
