-- ===== src/Buffer.antt =====
-- pallette/Buffer.h and Buffer.cpp: a vector of bytes with a read and a write index. A byte is a
-- number below 256; a pointer into the vector is its index. `none` is a failed `assert`, or an
-- access outside the vector (undefined behaviour). A sum of indices never wraps: it counts bytes
-- of allocations, below 2 ^ 63 each; a difference of indices is that of `size_t`.
pub mod Slices
pub mod Inv
pub mod Reads
pub mod Ops
pub mod Results
pub mod Search
pub mod Samples
mod Tests
pub mod Integers
use pallette.Base.{
  ℕ, zero, suc, ◌+◌, ◌-◌, ◌^◌, Bool, true, false, ◌&&◌, List, [], ◌∷◌, ◌++◌, Option, none, some,
}
use pallette.Base.{◌%◌, ◌^◌}
use pallette.Base.Tests.{ltb, leb, ◌==◌, if◌then◌else◌}
use pallette.Base.Lists.{length, take, drop, replicate}
use pallette.Buffer.Slices.{slice, write_at, starts_with, memmem}

pub record Buffer : Type 0 where
  pub buffer : List ℕ
  pub read_index : ℕ
  pub write_index : ℕ

abbrev pub pre_prepend : ℕ
pre_prepend = 8

-- `size_t` subtraction.
abbrev pub sub_size : ℕ → ℕ → ℕ
sub_size a b = if leb b a then a - b else a + 2 ^ 64 - b

infixl 5 ◌>>=◌ ◌>>◌
abbrev pub ◌>>=◌ {ℓ κ} : {A : Type ℓ} {B : Type κ} → Option A → (A → Option B) → Option B
none >>= f = none
some a >>= f = f a

abbrev pub ◌>>◌ {ℓ} : {B : Type ℓ} → Option (Unit {0}) → Option B → Option B
m >> k = m >>= λ _. k

-- `assert(b)`.
abbrev pub guard : Bool → Option (Unit {0})
guard true = some tt
guard false = none

pub new : ℕ → Buffer
new initial_size = record {
  buffer = replicate (pre_prepend + initial_size) 0;
  read_index = pre_prepend;
  write_index = pre_prepend;
}

-- `a.swap(b)` leaves the contents of each in the other.
pub swap : Buffer → Buffer → Buffer × Buffer
swap a b = (
  record { buffer = b.buffer; read_index = b.read_index; write_index = b.write_index },
  record { buffer = a.buffer; read_index = a.read_index; write_index = a.write_index },
)

pub readable_bytes : Buffer → ℕ
readable_bytes b = sub_size b.write_index b.read_index

pub writable_bytes : Buffer → ℕ
writable_bytes b = sub_size (length b.buffer) b.write_index

pub prependable_bytes : Buffer → ℕ
prependable_bytes b = b.read_index

abbrev pub peek : Buffer → ℕ
peek b = b.read_index

abbrev pub begin_write : Buffer → ℕ
begin_write b = b.write_index

pub retrieve_all : Buffer → Buffer
retrieve_all b = record b { read_index = pre_prepend; write_index = pre_prepend }

pub retrieve : Buffer → ℕ → Option Buffer
retrieve b len = do
  guard (leb len (readable_bytes b))
  if ltb len (readable_bytes b)
      then some (record b { read_index = b.read_index + len })
      else some (retrieve_all b)

pub retrieve_until : Buffer → ℕ → Option Buffer
retrieve_until b end = do
  guard (ltb (peek b) end)
  guard (leb end (begin_write b))
  retrieve b (end - peek b)

-- `std::string(p, len)`.
pub string_at : Buffer → ℕ → ℕ → Option (List ℕ)
string_at b p len = slice b.buffer p len

pub retrieve_as_string : Buffer → ℕ → Option (List ℕ × Buffer)
retrieve_as_string b len = do
  guard (leb len (readable_bytes b))
  result ← string_at b (peek b) len
  b' ← retrieve b len
  some (result, b')

pub retrieve_all_as_string : Buffer → Option (List ℕ × Buffer)
retrieve_all_as_string b = retrieve_as_string b (readable_bytes b)

-- The count goes through an `int`; a negative one is more than a string can have.
pub buffer_to_string : Buffer → Option (List ℕ)
buffer_to_string b =
    let n = readable_bytes b % 2 ^ 32 in if ltb n (2 ^ 31) then string_at b (peek b) n else none

-- `vector::resize`: cut, or filled up with zeros.
pub resize : List ℕ → ℕ → List ℕ
resize xs n = take n xs ++ replicate (n - length xs) 0

-- Both branches move the readable bytes to the front; only the first resizes the vector.
pub make_space : Buffer → ℕ → Option Buffer
make_space b len = do
  guard (leb pre_prepend b.read_index)
  let readable = readable_bytes b
  bytes ← slice b.buffer b.read_index readable
  moved ← write_at b.buffer pre_prepend bytes
  let bytes' =
      if ltb (writable_bytes b + prependable_bytes b) (len + pre_prepend)
      then resize moved (pre_prepend + readable + len)
      else moved
  some (record { buffer = bytes'; read_index = pre_prepend; write_index = pre_prepend + readable })

pub ensure_writable_bytes : Buffer → ℕ → Option Buffer
ensure_writable_bytes b len = if ltb (writable_bytes b) len then make_space b len else some b

pub has_written : Buffer → ℕ → Buffer
has_written b len = record b { write_index = b.write_index + len }

pub append : Buffer → List ℕ → Option Buffer
append b xs = do
  b' ← ensure_writable_bytes b (length xs)
  bytes ← write_at b'.buffer (begin_write b') xs
  some (has_written (record b' { buffer = bytes }) (length xs))

-- `readIndex_ -= len` past 0 makes `begin() + readIndex_` lie outside the vector.
pub prepend : Buffer → List ℕ → Option Buffer
prepend b xs = do
  guard (leb (length xs) b.read_index)
  bytes ← write_at b.buffer (b.read_index - length xs) xs
  some (record b { buffer = bytes; read_index = b.read_index - length xs })

-- What `readv` answers: the bytes that it stored, or `errno`.
pub data Readv : Type 0 where
  received : List ℕ → Readv
  failed : ℕ → Readv

abbrev pub extra_size : ℕ
extra_size = 65536

-- The room that `readFd` hands to `readv`: the second buffer only if the first is smaller than it.
pub iov_room : Buffer → ℕ
iov_room b =
    if ltb (writable_bytes b) extra_size then writable_bytes b + extra_size else writable_bytes b

-- The buffer after the call, and `*savedErrno` where it is set. `n <= writable` is tested as in the
-- source; past it the surplus stands in `extraBuf` and is appended. More than the room handed over is
-- not there to be read.
pub read_fd : Buffer → Readv → Option (Buffer × Option ℕ)
read_fd b (failed errno) = some (b, some errno)
read_fd b (received xs) =
    if leb (length xs) (writable_bytes b)
    then (do
      bytes ← write_at b.buffer b.write_index xs
      some (record b { buffer = bytes; write_index = b.write_index + length xs }, none))
    else (do
      guard (leb (length xs) (iov_room b))
      bytes ← write_at b.buffer b.write_index (take (writable_bytes b) xs)
      b' ←
          append (record b { buffer = bytes; write_index = length b.buffer })
            (drop (writable_bytes b) xs)
      some (b', none))

-- `findSubString(s, start)`: the outer `none` is a failed assert, the inner one a null pointer.
pub find_sub_string : Buffer → List ℕ → ℕ → Option (Option ℕ)
find_sub_string b needle start = do
  guard (leb (peek b) start)
  guard (leb start (begin_write b))
  hay ← slice b.buffer start (begin_write b - start)
  elim (memmem hay needle) [
    | none ↦ some none
    | some k ↦ if start + k == begin_write b then some none else some (some (start + k))
  ]
