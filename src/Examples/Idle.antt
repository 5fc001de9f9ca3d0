-- ===== src/Examples/Idle.antt =====
-- examples/idleconnection/EchoServer.cpp: connections without a message are shut down by a timing
-- wheel. An entry is known by the number of its connection; it lives while a bucket holds it.
-- `none` is an access to an empty deque. The text that is sent back is not followed.
pub mod Wheel
pub mod Timer
pub mod Shutdown
mod Tests
use pallette.Base.{
  ℕ, zero, suc, ◌+◌, Bool, true, false, ◌||◌, not, List, [], ◌∷◌, ◌++◌, Option, none, some,
}
use pallette.Base.Tests.{◌==◌, if◌then◌else◌}
use pallette.Buffer.{◌>>=◌}
use pallette.Queue.{CircularBuffer, empty, full, push_back}

-- `connectionBuckets_`, and the connections whose objects are gone.
pub record EchoServer : Type 0 where
  pub connection_buckets : CircularBuffer (List ℕ)
  pub expired : ℕ → Bool

unfoldable pub has : ℕ → List ℕ → Bool
has x [] = false
has x (y ∷ ys) = (x == y) || has x ys

-- `weakEntry.lock()`: whether some bucket holds the entry.
unfoldable pub lock : ℕ → List (List ℕ) → Bool
lock x [] = false
lock x (b ∷ bs) = has x b || lock x bs

-- `Bucket::insert`.
unfoldable pub insert : ℕ → List ℕ → List ℕ
insert x b = if has x b then b else x ∷ b

unfoldable pub insert_back : ℕ → List (List ℕ) → Option (List (List ℕ))
insert_back x [] = none
insert_back x (b ∷ []) = some (insert x b ∷ [])
insert_back x (b ∷ c ∷ bs) = insert_back x (c ∷ bs) >>= λ bs'. some (b ∷ bs')

unfoldable pub with_back : EchoServer → ℕ → Option EchoServer
with_back s x = do
  buckets ← insert_back x s.connection_buckets.buffer
  some (record s { connection_buckets = record (s.connection_buckets) { buffer = buckets } })

abbrev pub new : ℕ → EchoServer
new idle_seconds = record {
  connection_buckets = record { max_size = idle_seconds; buffer = [] };
  expired = λ x. false;
}

unfoldable pub on_connection : EchoServer → (connected : Bool) → ℕ → Option EchoServer
on_connection s connected x = if connected then with_back s x else some s

-- The asserts on the context are not followed: a connection's `onConnection` sets it before any
-- message, and nothing empties it.
unfoldable pub on_message : EchoServer → ℕ → Option EchoServer
on_message s x = if lock x s.connection_buckets.buffer then with_back s x else some s

-- The entries of a bucket that goes away which no other bucket holds: their destructors run, and
-- shut down the connections that are not gone.
unfoldable pub destroyed : (expired : ℕ → Bool) → List ℕ → List (List ℕ) → List ℕ
destroyed expired [] rest = []
destroyed expired (x ∷ xs) rest =
    let more = destroyed expired xs rest in if lock x rest || expired x then more else x ∷ more

abbrev pub first_bucket : List (List ℕ) → List ℕ
first_bucket [] = []
first_bucket (b ∷ bs) = b

-- What `push_back` of a full deque drops.
unfoldable pub dropped : CircularBuffer (List ℕ) → List ℕ
dropped b = if full b then first_bucket b.buffer else []

-- The connections that are shut down, and the server.
unfoldable pub on_time : EchoServer → List ℕ × EchoServer
on_time s =
    let buckets = push_back s.connection_buckets [] in
    (
      destroyed s.expired (dropped s.connection_buckets) buckets.buffer,
      record s { connection_buckets = buckets },
    )

-- What reaches the server: a connection is up or down, a message, the timer of each second, and a
-- connection's object goes.
pub data Event : Type 0 where
  connection : Bool → ℕ → Event
  message : ℕ → Event
  time : Event
  gone : ℕ → Event

unfoldable pub step : EchoServer → Event → Option (List ℕ × EchoServer)
step s (connection up x) = on_connection s up x >>= λ s'. some ([], s')
step s (message x) = on_message s x >>= λ s'. some ([], s')
step s time = some (on_time s)
step s (gone x) = some ([], record s { expired = λ y. (y == x) || s.expired y })

unfoldable pub run : EchoServer → List Event → Option (List ℕ × EchoServer)
run s [] = some ([], s)
run s (e ∷ es) = do (out, s1) ← step s e; (out', s2) ← run s1 es; some (out ++ out', s2)
