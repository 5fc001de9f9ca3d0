-- ===== src/Threads/Latch.antt =====
-- pallette/CountDownLatch.cpp. The callers of `wait` are counted by what they are doing; a step is
-- taken under the mutex, or is a wake-up.
pub mod Released
mod Tests
use pallette.Base.{ℕ, zero, suc, ◌+◌, ◌≡◌, Bool, true, false, Option, none, some}
use pallette.Base.Tests.{if◌then◌else◌}
use pallette.Base.Int.{ℤ, pos, negsuc}

-- Callers that are at the test of `count_`, that wait, and that have returned.
pub record CountDownLatch : Type 0 where
  pub count : ℤ
  pub testing : ℕ
  pub asleep : ℕ
  pub passed : ℕ

abbrev pub new : ℤ → CountDownLatch
new count = record { count = count; testing = 0; asleep = 0; passed = 0 }

abbrev is_positive : ℤ → Bool
is_positive (pos zero) = false
is_positive (pos (suc n)) = true
is_positive (negsuc n) = false

abbrev decremented : ℤ → ℤ
decremented (pos zero) = negsuc 0
decremented (pos (suc n)) = pos n
decremented (negsuc n) = negsuc (suc n)

abbrev is_zero : ℤ → Bool
is_zero (pos zero) = true
is_zero (pos (suc n)) = false
is_zero (negsuc n) = false

abbrev pub wait : CountDownLatch → CountDownLatch
wait s = record s { testing = suc s.testing }

-- The test of a caller's loop.
abbrev tested : CountDownLatch → (testing : ℕ) → Option CountDownLatch
tested s zero = none
tested s (suc n) = some (
    if is_positive s.count
    then record s { testing = n; asleep = suc s.asleep }
    else record s { testing = n; passed = suc s.passed })

unfoldable pub test : CountDownLatch → Option CountDownLatch
test s = tested s s.testing

unfoldable pub count_down : CountDownLatch → CountDownLatch
count_down s =
    let t = record s { count = decremented s.count } in
    if is_zero t.count then record t { testing = t.testing + t.asleep; asleep = 0 } else t

-- A wake-up that nobody asked for.
abbrev woken : CountDownLatch → (asleep : ℕ) → Option CountDownLatch
woken s zero = none
woken s (suc n) = some (record s { testing = suc s.testing; asleep = n })

unfoldable pub wake : CountDownLatch → Option CountDownLatch
wake s = woken s s.asleep

unfoldable pub get_count : CountDownLatch → ℤ
get_count s = s.count

-- The states of a latch that was made with `n`, after `k` calls of `countDown`.
pub data Reaches (n : ℕ) : ℕ → CountDownLatch → Type 0 where
  starts : Reaches n 0 (new (pos n))
  waits : {k : ℕ} {s : CountDownLatch} → Reaches n k s → Reaches n k (wait s)
  tests : {k : ℕ} {s t : CountDownLatch} → Reaches n k s → test s ≡ some t → Reaches n k t
  counts : {k : ℕ} {s : CountDownLatch} → Reaches n k s → Reaches n (suc k) (count_down s)
  wakes : {k : ℕ} {s t : CountDownLatch} → Reaches n k s → wake s ≡ some t → Reaches n k t
