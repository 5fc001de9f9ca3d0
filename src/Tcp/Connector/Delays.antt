-- ===== src/Tcp/Connector/Delays.antt =====
-- The delays between the attempts of a connector.
use pallette.Base.{
  ℕ, zero, suc, ◌+◌, ◌-◌, ◌*◌, ◌^◌, ◌≡◌, refl, sym, ap, ◌∙◌, min, true, false, List, [], ◌∷◌, ◌++◌,
  Option, none, some, arith, append_assoc, append-nil,
}
use native.Mathlib.Nat.{pow-suc}
use pallette.Buffer.{◌>>=◌}
use pallette.Tcp.Connector.{
  Connector, disconnected, connecting, Answer, proceeds, later, new, max_retry_delay_ms, close,
  retry, begin_connecting, do_connect, start_in_loop, start, on_timer,
}

-- The delay after `n` attempts in a row that were refused.
abbrev pub delay : ℕ → ℕ
delay n = min (500 * 2 ^ n) max_retry_delay_ms

-- The delays of `n` attempts, `k` having been refused before.
abbrev pub delays_from : (k n : ℕ) → List ℕ
delays_from k zero = []
delays_from k (suc n) = delay k ∷ delays_from (suc k) n

-- `n` timers fire, one after the other, and the attempt fails each time in a way worth a retry.
unfoldable pub retries : Connector → ℕ → Option Connector
retries c zero = some c
retries c (suc n) = on_timer c later >>= λ c'. retries c' n

-- A connector that waits to try again.
pub record Waits (c : Connector) (k : ℕ) : Type 0 where
  pub wants : c.connect ≡ true
  pub idle : c.state ≡ disconnected
  pub due : c.retry_delay_ms ≡ delay k
  pub one : c.timers ≡ 1

delay-suc : (k : ℕ) → min (delay k * 2) max_retry_delay_ms ≡ delay (suc k)
delay-suc k = rw (pow-suc 2 k) (omega arith)

retry_wanted :
    (c : Connector)
    → c.connect ≡ true
    → retry c ≡ record c {
      closed = c.closed + 1;
      state = disconnected;
      timers = c.timers + 1;
      delays = c.delays ++ c.retry_delay_ms ∷ [];
      retry_delay_ms = min (c.retry_delay_ms * 2) max_retry_delay_ms;
      retry_connector = true;
      canceled = false;
    }
unfolding retry close
retry_wanted c on = simp on refl

-- The connector that `connect` is called on when a timer fires.
abbrev tried : Connector → Connector
tried c = record c { timers = c.timers - 1; retry_connector = false; created = c.created + 1 }

on_timer_lem :
    (c : Connector)
    → c.connect ≡ true
    → c.state ≡ disconnected
    → on_timer c later ≡ some (retry (tried c))
unfolding on_timer start_in_loop do_connect
on_timer_lem c on idle = simp (on, idle) refl

-- One more failure.
again :
    (c : Connector) (k : ℕ)
    → Waits c k
    → (c' : Connector) × (on_timer c later ≡ some c')
      × Waits c' (suc k)
      × (c'.delays ≡ c.delays ++ delay k ∷ [])
again c k w = (
  _,
  on_timer_lem c w.wants w.idle ∙ ap some (retry_wanted (tried c) w.wants),
  record {
    wants = w.wants;
    idle = refl;
    due = ap (λ n. min (n * 2) max_retry_delay_ms) w.due ∙ delay-suc k;
    one = omega (arith, w.one);
  },
  ap (λ n. c.delays ++ n ∷ []) w.due,
)

retries-Waits :
    (c : Connector) (k n : ℕ)
    → Waits c k
    → (d : Connector) × (retries c n ≡ some d) × (d.delays ≡ c.delays ++ delays_from k n)
unfolding retries
retries-Waits c k zero w = (c, refl, sym (append-nil c.delays))
retries-Waits c k (suc n) w =
    let (c', e, w', l) = again c k w in
    let (d, e', l') = retries-Waits c' (suc k) n w' in
    (
      d,
      ap (λ o. o >>= λ x. retries x n) e ∙ e',
      l' ∙ ap (λ xs. xs ++ delays_from (suc k) n) l ∙ append_assoc c.delays (delay k ∷ []) _,
    )

-- A new connector that is started, and whose attempts all fail in a way worth a retry, asks the
-- event loop to wait for half a second, then for twice as long each time, up to thirty seconds:
-- after any number of failures no assert has failed, and these are the delays asked for.
pub retries-start :
    (n : ℕ)
    → (c d : Connector) × (start new later ≡ some c)
      × (retries c n ≡ some d)
      × (d.delays ≡ delays_from 0 (suc n))
unfolding start start_in_loop do_connect retry close
retries-start n =
    let (d, e, l) =
      retries-Waits first 1 n (record { wants = refl; idle = refl; due = refl; one = refl }) in
    (first, d, refl, e, l)
  where
    first : Connector
    first = record new {
      connect = true;
      retry_connector = true;
      timers = 1;
      delays = 500 ∷ [];
      retry_delay_ms = 1000;
      created = 1;
      closed = 1;
    }

connecting_now :
    (c : Connector)
    → c.state ≡ disconnected
    → c.channel ≡ false
    → start c proceeds
      ≡ some (record c {
        connect = true;
        retry_connector = false;
        created = c.created + 1;
        state = connecting;
        channel = true;
      })
unfolding start start_in_loop do_connect begin_connecting
connecting_now c idle free = simp (idle, free) refl

on_timer_busy : (c : Connector) (a : Answer) → c.state ≡ connecting → on_timer c a ≡ none
unfolding on_timer start_in_loop
on_timer_busy c a busy = simp busy refl

-- A `start` while a connector waits to try again, its last channel reset, begins an attempt; if
-- that attempt is still under way when the timer of the retry fires, an assert fails.
pub start-on_timer :
    (c : Connector) (k : ℕ) (a : Answer)
    → Waits c k
    → c.channel ≡ false
    → (c' : Connector) × (start c proceeds ≡ some c') × (on_timer c' a ≡ none)
start-on_timer c k a w free = (
  record c {
    connect = true;
    retry_connector = false;
    created = c.created + 1;
    state = connecting;
    channel = true;
  },
  connecting_now c w.idle free,
  on_timer_busy _ a refl,
)
