-- ===== src/Examples/Codec.antt =====
-- examples/chat/ChatCodec.h: LengthHeaderCodec. A length is the bit pattern of its int32_t, negative
-- from 2 ^ 31 on. What a callback is given is collected. `none` is an access outside the buffer, or
-- a loop that is out of fuel; one round more than the bytes that can be read is enough.
pub mod Frames
pub mod Decodes
pub mod Stream
mod Tests
use pallette.Base.{
  ℕ, zero, suc, ◌+◌, ◌%◌, ◌^◌, Bool, true, false, ◌||◌, List, [], ◌∷◌, ◌++◌, Option, none, some,
}
use pallette.Base.Tests.{ltb, leb, if◌then◌else◌}
use pallette.Base.Lists.{length}
use pallette.Buffer.{
  Buffer, ◌>>=◌, readable_bytes, peek, retrieve, append, string_at, buffer_to_string,
}
use pallette.Buffer
use pallette.Buffer.Integers.{peek_int32, prepend_int32}

abbrev pub header_len : ℕ
header_len = 4

-- `len > 65535 || len < 0`.
abbrev pub is_invalid : ℕ → Bool
is_invalid len = (ltb 65535 len) || (leb (2 ^ 31) len)

-- The messages given to the callback, whether the connection is closed by force, and the buffer.
pub record Decoded : Type 0 where
  pub messages : List (List ℕ)
  pub closed : Bool
  pub buffer : Buffer

abbrev pub add_message : List ℕ → Decoded → Decoded
add_message message d = record d { messages = message ∷ d.messages }

-- The message behind the header, taken out of the buffer.
unfoldable pub take_message : Buffer → ℕ → Option (List ℕ × Buffer)
take_message b len = do
  b1 ← retrieve b header_len
  message ← string_at b1 (peek b1) len
  b2 ← retrieve b1 len
  some (message, b2)

-- The loop; `go` is what it does from the next round on.
unfoldable pub round : (go : Buffer → Option Decoded) → Buffer → ℕ → Option Decoded
round go b len =
    if is_invalid len
    then some (record { messages = []; closed = true; buffer = b })
    else if leb (len + header_len) (readable_bytes b)
    then (do (message, b') ← take_message b len; d ← go b'; some (add_message message d))
    else some (record { messages = []; closed = false; buffer = b })

unfoldable pub loop : ℕ → Buffer → Option Decoded
loop zero b = none
loop (suc fuel) b =
    let rest = peek_int32 b >>= λ len. round (loop fuel) b len in
    if leb header_len (readable_bytes b)
    then rest
    else some (record { messages = []; closed = false; buffer = b })

unfoldable pub on_message : Buffer → Option Decoded
on_message b = loop (suc (readable_bytes b)) b

-- What `conn->send(&buf)` is given.
unfoldable pub send : List ℕ → Option (List ℕ)
send message = do
  b1 ← append (Buffer.new 1024) message
  b2 ← prepend_int32 b1 (length message % 2 ^ 32)
  buffer_to_string b2
