-- ===== src/Buffer/Integers.antt =====
-- The integer operations of pallette/Buffer.cpp. An integer is its bit pattern: a number below
-- 2 ^ 64, 2 ^ 32, 2 ^ 16 or 2 ^ 8. `peekInt…` copies the bytes from `peek` on without asking how
-- many are readable.
pub mod RoundTrip
use pallette.Base.{ℕ, List, Option, none, some}
use pallette.Endian.{
  le_bytes, of_le, host_to_network64, host_to_network32, host_to_network16, network_to_host64,
  network_to_host32, network_to_host16,
}
use pallette.Buffer.Slices.{slice}
use pallette.Buffer.{Buffer, ◌>>=◌, peek, append, prepend, retrieve}

pub append_int64 : Buffer → ℕ → Option Buffer
append_int64 b x = let be64 = host_to_network64 x in append b (le_bytes 8 be64)

pub append_int32 : Buffer → ℕ → Option Buffer
append_int32 b x = let be32 = host_to_network32 x in append b (le_bytes 4 be32)

pub append_int16 : Buffer → ℕ → Option Buffer
append_int16 b x = let be16 = host_to_network16 x in append b (le_bytes 2 be16)

pub append_int8 : Buffer → ℕ → Option Buffer
append_int8 b x = append b (le_bytes 1 x)

pub peek_int64 : Buffer → Option ℕ
peek_int64 b = do be64 ← slice b.buffer (peek b) 8; some (network_to_host64 (of_le be64))

pub peek_int32 : Buffer → Option ℕ
peek_int32 b = do be32 ← slice b.buffer (peek b) 4; some (network_to_host32 (of_le be32))

pub peek_int16 : Buffer → Option ℕ
peek_int16 b = do be16 ← slice b.buffer (peek b) 2; some (network_to_host16 (of_le be16))

pub peek_int8 : Buffer → Option ℕ
peek_int8 b = do be8 ← slice b.buffer (peek b) 1; some (of_le be8)

pub read_int64 : Buffer → Option (ℕ × Buffer)
read_int64 b = do result ← peek_int64 b; b' ← retrieve b 8; some (result, b')

pub read_int32 : Buffer → Option (ℕ × Buffer)
read_int32 b = do result ← peek_int32 b; b' ← retrieve b 4; some (result, b')

pub read_int16 : Buffer → Option (ℕ × Buffer)
read_int16 b = do result ← peek_int16 b; b' ← retrieve b 2; some (result, b')

pub read_int8 : Buffer → Option (ℕ × Buffer)
read_int8 b = do result ← peek_int8 b; b' ← retrieve b 1; some (result, b')

pub prepend_int64 : Buffer → ℕ → Option Buffer
prepend_int64 b x = let be64 = host_to_network64 x in prepend b (le_bytes 8 be64)

pub prepend_int32 : Buffer → ℕ → Option Buffer
prepend_int32 b x = let be32 = host_to_network32 x in prepend b (le_bytes 4 be32)

pub prepend_int16 : Buffer → ℕ → Option Buffer
prepend_int16 b x = let be16 = host_to_network16 x in prepend b (le_bytes 2 be16)

pub prepend_int8 : Buffer → ℕ → Option Buffer
prepend_int8 b x = prepend b (le_bytes 1 x)
