-- ===== src/Examples/Codec/Decodes.antt =====
-- What a call of `onMessage` takes of the bytes that have arrived.
use pallette.Base.{
  ℕ, zero, suc, ◌+◌, ◌^◌, ◌≤◌, ◌<◌, ◌≡◌, refl, ap, ◌∙◌, subst, false, inl, inr, List, [], ◌∷◌, ◌++◌,
  Option, some, arith, append_assoc,
}
use pallette.Base.Tests.{leb, Bool-cases, leb→le, leb_false→lt, lt→leb_false, le→ltb_false}
use pallette.Base.Lists.{length, length-append, All}
use pallette.Endian.{be_bytes}
use pallette.Endian.Laws.{length-be_bytes}
use pallette.Buffer.{Buffer, ◌>>=◌, readable_bytes, retrieve}
use pallette.Buffer.Inv.{Holds}
use pallette.Buffer.Reads.{retrieve_lem, string_at_lem, readable_bytes-Holds}
use pallette.Buffer.Integers.{peek_int32}
use pallette.Buffer.Integers.RoundTrip.{peek_int32_lem}
use pallette.Examples.Codec.{
  Decoded, header_len, is_invalid, add_message, take_message, round, loop, on_message,
}
use pallette.Examples.Codec.Frames.{frames, split_prefix}

abbrev pub IsShort : List ℕ → Type 0
IsShort m = length m ≤ 65535

IsShort-valid : (m : List ℕ) → IsShort m → is_invalid (length m) ≡ false
IsShort-valid m h =
    rw (le→ltb_false 65535 (length m) h, lt→leb_false (2 ^ 31) (length m) (omega (arith, h))) refl

take_message_lem :
    (b : Buffer) (m rest : List ℕ)
    → Holds b (be_bytes 4 (length m) ++ (m ++ rest))
    → (b' : Buffer) × (take_message b (length m) ≡ some (m, b')) × Holds b' rest
unfolding take_message
take_message_lem b m rest h =
    let (b1, e1, h1) = retrieve_lem b (be_bytes 4 (length m)) (m ++ rest) h in
    let (b2, e2, h2) = retrieve_lem b1 m rest h1 in
    (
      b2,
      rw
          (
            subst (λ n. retrieve b n ≡ some b1) (length-be_bytes 4 (length m)) e1,
            string_at_lem b1 m rest h1,
            e2,
          )
          refl,
      h2,
    )

-- The next message is not there yet.
abbrev pub Waits : List (List ℕ) → List ℕ → Type 0
Waits [] r = Unit
Waits (m ∷ ms) r = length r < 4 + length m

-- Some messages are given to the callback; with what is still to come, the others are in the buffer.
abbrev Decodes : List ℕ → List (List ℕ) → Option Decoded → Type 0
Decodes future ms o =
    (out left : List (List ℕ)) × (b' : Buffer) × (r : List ℕ) × (o
      ≡ some (record { messages = out; closed = false; buffer = b' }))
    × Holds b' r
    × (ms ≡ out ++ left)
    × (r ++ future ≡ frames left)
    × Waits left r

Decodes-add :
    (future : List ℕ) (m : List ℕ) (ms : List (List ℕ)) (o : Option Decoded)
    → Decodes future ms o
    → Decodes future (m ∷ ms) (o >>= λ d. some (add_message m d))
Decodes-add future m ms o (out, left, b', r, e, h, s, f, w) = (
  m ∷ out,
  left,
  b',
  r,
  ap (λ o. o >>= λ d. some (add_message m d)) e,
  h,
  ap (λ t. m ∷ t) s,
  f,
  w,
)

module _ (future : List ℕ) (fuel : ℕ) (go : Buffer → Option Decoded)
    (ih : (b : Buffer) (r : List ℕ) (ms : List (List ℕ))
      → Holds b r
      → r ++ future ≡ frames ms
      → All IsShort ms
      → length r < fuel
      → Decodes future ms (go b)) where
  -- The header of the first message is there.
  message-Decodes :
      (b : Buffer) (m rest : List ℕ) (ms : List (List ℕ))
      → Holds b (be_bytes 4 (length m) ++ rest)
      → rest ++ future ≡ m ++ frames ms
      → IsShort m
      → All IsShort ms
      → length rest < fuel
      → Decodes future (m ∷ ms) (round go b (length m))
  unfolding round
  message-Decodes b m rest ms h e short shorts f =
      let size : readable_bytes b ≡ 4 + length rest = omega (
        arith,
        readable_bytes-Holds b _ h,
        length-append (be_bytes 4 (length m)) rest,
        length-be_bytes 4 (length m),
      ) in
      elim (Bool-cases (leb (length m + header_len) (readable_bytes b))) [
        | inl whole ↦
            let (rest', e1, e2) =
              split_prefix rest future m (frames ms) e (omega (arith, leb→le _ _ whole, size)) in
            let (b', t, h') =
              take_message_lem b m rest' (subst (λ r. Holds b (be_bytes 4 (length m) ++ r)) e1 h) in
            rw (IsShort-valid m short, whole, t)
              (Decodes-add future m ms (go b') (
                ih b' rest' ms h' e2 shorts
                  (omega (arith, f, ap length e1, length-append m rest'))))
        | inr part ↦
            rw (IsShort-valid m short, part)
              (
                [],
                m ∷ ms,
                b,
                be_bytes 4 (length m) ++ rest,
                refl,
                h,
                refl,
                append_assoc (be_bytes 4 (length m)) rest future
                    ∙ ap (λ t. be_bytes 4 (length m) ++ t) e,
                omega (arith, leb_false→lt _ _ part, readable_bytes-Holds b _ h),
              )
      ]

  round-Decodes :
      (b : Buffer) (r : List ℕ) (ms : List (List ℕ))
      → Holds b r
      → r ++ future ≡ frames ms
      → All IsShort ms
      → length r < suc fuel
      → 4 ≤ length r
      → Decodes future ms (peek_int32 b >>= λ len. round go b len)
  round-Decodes b r [] h e short f p =
      absurd (omega (arith, p, ap length e, length-append r future))
  round-Decodes b r (m ∷ ms) h e (short, shorts) f p =
      let (rest, e1, e2) =
        split_prefix r future (be_bytes 4 (length m)) (m ++ frames ms) e
          (omega (arith, p, length-be_bytes 4 (length m))) in
      let h' = subst (Holds b) e1 h in
      rw (peek_int32_lem b (length m) rest h' (omega (arith, short))) (
        message-Decodes b m rest ms h' e2 short shorts (
          omega (
            arith,
            f,
            ap length e1,
            length-append (be_bytes 4 (length m)) rest,
            length-be_bytes 4 (length m),
          )))

module _ (future : List ℕ) where
  loop-Decodes :
      (fuel : ℕ) (b : Buffer) (r : List ℕ) (ms : List (List ℕ))
      → Holds b r
      → r ++ future ≡ frames ms
      → All IsShort ms
      → length r < fuel
      → Decodes future ms (loop fuel b)
  unfolding loop
  loop-Decodes zero b r ms h e short f = absurd (omega (arith, f))
  loop-Decodes (suc fuel) b r ms h e short f =
      elim (Bool-cases (leb header_len (readable_bytes b))) [
        | inl head ↦ rw head (
            round-Decodes future fuel (loop fuel) (loop-Decodes fuel) b r ms h e short f
              (omega (arith, leb→le _ _ head, readable_bytes-Holds b r h)))
        | inr none' ↦ rw none' (
          [],
          ms,
          b,
          r,
          refl,
          h,
          refl,
          e,
          Waits-few ms r (omega (arith, leb_false→lt _ _ none', readable_bytes-Holds b r h)),
        )
      ]
    where
      Waits-few : (ms : List (List ℕ)) (r : List ℕ) → length r < 4 → Waits ms r
      Waits-few [] r h = tt
      Waits-few (m ∷ ms) r h = omega (arith, h)

  pub on_message-Decodes :
      (b : Buffer) (r : List ℕ) (ms : List (List ℕ))
      → Holds b r
      → r ++ future ≡ frames ms
      → All IsShort ms
      → Decodes future ms (on_message b)
  unfolding on_message
  on_message-Decodes b r ms h e short =
      loop-Decodes (suc (readable_bytes b)) b r ms h e short
        (omega (arith, readable_bytes-Holds b r h))
