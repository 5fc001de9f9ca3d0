-- ===== src/Examples/Codec/Tests.antt =====
-- Two messages in three chunks, and one that is too long.
use pallette.Base.{ℕ, ◌≡◌, refl, false, List, [], ◌∷◌, ◌++◌, some, arith}
use pallette.Base.Lists.{replicate}
use pallette.Base.Text.{codes}
use pallette.Endian.{be_bytes}
use pallette.Buffer.{Buffer}
use pallette.Buffer.Samples.{wire, wire-Holds}
use pallette.Buffer.Inv.{Holds}
use pallette.Examples.Codec.Frames.{frames}
use pallette.Examples.Codec.Stream.{send_all, receive, receive-send_all}

abbrev two_messages : List (List ℕ)
two_messages = codes "hi" ∷ codes "you" ∷ []

abbrev three_chunks : List (List ℕ)
three_chunks = (0 ∷ 0 ∷ []) ∷ (0 ∷ 2 ∷ (codes "hi" ++ (0 ∷ []))) ∷ (0 ∷ 0 ∷ 3 ∷ codes "you") ∷ []

receive-send_all_example :
    (send_all two_messages ≡ some (frames two_messages))
    × ((b' : Buffer) × (receive three_chunks (wire [])
          ≡ some (record { messages = two_messages; closed = false; buffer = b' }))
        × Holds b' [])
unfolding be_bytes
receive-send_all_example =
    receive-send_all two_messages three_chunks (wire []) (omega arith) refl (wire-Holds [])

abbrev long_message : List ℕ
long_message = replicate 65536 b'a'
