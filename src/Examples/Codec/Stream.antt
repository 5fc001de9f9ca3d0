-- ===== src/Examples/Codec/Stream.antt =====
-- Messages arrive whole and in order, however the bytes are cut on their way.
use pallette.Base.{
  ℕ, ◌^◌, ◌<◌, ◌≡◌, refl, sym, ap, ◌∙◌, subst, true, false, List, [], ◌∷◌, ◌++◌, Option, some,
  arith, append_assoc, append-nil,
}
use pallette.Base.Tests.{lt→ltb, if◌then◌else◌, le→leb}
use pallette.Base.{◌+◌}
use pallette.Base.Lists.{joined, length, length-append, All}
use pallette.Endian.{be_bytes}
use pallette.Endian.Laws.{length-be_bytes}
use pallette.Buffer.{Buffer, ◌>>=◌, readable_bytes, append}
use pallette.Buffer.Inv.{Holds}
use pallette.Buffer.Ops.{append_lem}
use pallette.Buffer.Reads.{readable_bytes-Holds}
use pallette.Buffer.Integers.RoundTrip.{peek_int32_lem}
use pallette.Examples.Codec.{Decoded, header_len, round, loop, on_message, send}
use pallette.Examples.Codec.Frames.{frame, frames, send_lem}
use pallette.Examples.Codec.Decodes.{IsShort, Waits, on_message-Decodes}

-- The rest of what arrives, unless the connection was closed.
abbrev pub receive_on : (Buffer → Option Decoded) → Decoded → Option Decoded
receive_on next d =
    if d.closed
    then some d
    else (next d.buffer >>= λ d'. some (record d' { messages = d.messages ++ d'.messages }))

-- What arrives is put into the input buffer, chunk by chunk, each with a call of `onMessage`.
pub receive : List (List ℕ) → Buffer → Option Decoded
receive [] b = some (record { messages = []; closed = false; buffer = b })
receive (chunk ∷ chunks) b =
    append b chunk >>= λ b'. (on_message b' >>= λ d. receive_on (receive chunks) d)

abbrev Arrives : List (List ℕ) → Option Decoded → Type 0
Arrives ms o =
    (b' : Buffer) × (o ≡ some (record { messages = ms; closed = false; buffer = b' })) × Holds b' []

All-right {ℓ κ} : {A : Type ℓ} (P : A → Type κ) (xs ys : List A) → All P (xs ++ ys) → All P ys
All-right P [] ys h = h
All-right P (x ∷ xs) ys h = All-right P xs ys h.1

-- No header is there.
Waits-nil : (ms : List (List ℕ)) → Waits ms []
Waits-nil [] = tt
Waits-nil (m ∷ ms) = omega arith

receive-Arrives :
    (chunks : List (List ℕ)) (b : Buffer) (r : List ℕ) (ms : List (List ℕ))
    → Holds b r
    → r ++ joined chunks ≡ frames ms
    → All IsShort ms
    → Waits ms r
    → Arrives ms (receive chunks b)
unfolding receive
receive-Arrives [] b r [] h e short w = (b, refl, subst (Holds b) (sym (append-nil r) ∙ e) h)
receive-Arrives [] b r (m ∷ ms) h e short w = absurd (
    omega (
      arith,
      w,
      ap length e,
      length-append r [],
      length-append (be_bytes 4 (length m)) (m ++ frames ms),
      length-be_bytes 4 (length m),
      length-append m (frames ms),
    ))
receive-Arrives (chunk ∷ chunks) b r ms h e short w =
    let (b1, e1, h1) = append_lem b r chunk h in
    let (out, left, b2, r2, e2, h2, s, f, w2) =
      on_message-Decodes (joined chunks) b1 (r ++ chunk) ms h1
        (append_assoc r chunk (joined chunks) ∙ e) short in
    let (b3, e3, h3) =
      receive-Arrives chunks b2 r2 left h2 f
        (All-right IsShort out left (subst (All IsShort) s short)) w2 in
    (
      b3,
      rw (e1, e2, e3)
          (ap (λ ms. some (record { messages = ms; closed = false; buffer = b3 })) (sym s)),
      h3,
    )

-- What a sender gives to the connection for all messages, one behind the other.
pub send_all : List (List ℕ) → Option (List ℕ)
send_all [] = some []
send_all (m ∷ ms) = send m >>= λ t. (send_all ms >>= λ ts. some (t ++ ts))

send_all_lem : (ms : List (List ℕ)) → All IsShort ms → send_all ms ≡ some (frames ms)
unfolding send_all
send_all_lem [] h = refl
send_all_lem (m ∷ ms) (short, shorts) =
    rw (send_lem m (omega (arith, short)), send_all_lem ms shorts)
      (ap some (append_assoc (be_bytes 4 (length m)) m (frames ms)))

-- Messages of at most 65535 bytes are sent as their frames, one behind the other; and when those
-- frames arrive cut into chunks in any way, at an empty input buffer, the receiver's callback is
-- given the same messages, whole and in order, the connection is not closed, and no byte is left.
pub receive-send_all :
    (ms chunks : List (List ℕ)) (b : Buffer)
    → All IsShort ms
    → joined chunks ≡ frames ms
    → Holds b []
    → (send_all ms ≡ some (frames ms))
      × ((b' : Buffer) × (receive chunks b
            ≡ some (record { messages = ms; closed = false; buffer = b' }))
          × Holds b' [])
receive-send_all ms chunks b short e h =
    (send_all_lem ms short, receive-Arrives chunks b [] ms h e short (Waits-nil ms))

-- A message of more than 65535 bytes is sent as its frame all the same, but whoever receives the
-- frame closes the connection at the header, and takes nothing out of the buffer.
pub on_message-send_long :
    (m rest : List ℕ) (b : Buffer)
    → 65535 < length m
    → length m + 4 < 2 ^ 31
    → Holds b (frame m ++ rest)
    → (send m ≡ some (frame m))
      × (on_message b ≡ some (record { messages = []; closed = true; buffer = b }))
unfolding on_message loop round
on_message-send_long m rest b long fits h =
    let h' = subst (Holds b) (append_assoc (be_bytes 4 (length m)) m rest) h in
    (
      send_lem m fits,
      rw
          (
            le→leb header_len (readable_bytes b) (
                omega (
                  arith,
                  readable_bytes-Holds b _ h',
                  length-be_bytes 4 (length m),
                  length-append (be_bytes 4 (length m)) (m ++ rest),
                )),
            peek_int32_lem b (length m) (m ++ rest) h' (omega (arith, fits)),
            lt→ltb 65535 (length m) long,
          )
          refl,
    )
