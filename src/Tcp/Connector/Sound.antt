-- ===== src/Tcp/Connector/Sound.antt =====
-- What a connector in good order is, and how its attempts keep it so.
use pallette.Base.{
  ℕ, suc, ◌+◌, ◌≤◌, ◌≡◌, refl, ap, subst, inl, inr, ◌⊎◌, Bool, true, false, Option, none, some,
  arith,
}
use pallette.Base.Tests.{if◌then◌else◌, Bool-cases, some_inj}
use pallette.Buffer.{◌>>=◌, guard}
use pallette.Tcp.Connector.{
  Connector, States, disconnected, connecting, connected, Answer, proceeds, later, refused,
  is_connecting, is_disconnected, max_retry_delay_ms, init_retry_delay_ms, close, retry,
  begin_connecting, do_connect, start_in_loop,
}

-- The sockets that a connector in some state still has to close or to hand on.
abbrev pub live : States → ℕ
live disconnected = 0
live connecting = 1
live connected = 0

-- How many functors `resetChannel` are queued: one while a channel is left over. A connecting
-- connector has its channel.
abbrev pub Slot : (channel : Bool) → States → ℕ → Type 0
Slot false disconnected n = n ≡ 0
Slot false connecting n = suc n ≡ 0
Slot false connected n = n ≡ 0
Slot true disconnected n = n ≡ 1
Slot true connecting n = n ≡ 0
Slot true connected n = n ≡ 1

pub record IsSound (c : Connector) : Type 0 where
  pub balanced : c.created ≡ c.closed + c.handed + live c.state
  pub slot : Slot c.channel c.state c.resets
  pub at_least : init_retry_delay_ms ≤ c.retry_delay_ms
  pub at_most : c.retry_delay_ms ≤ max_retry_delay_ms

-- An operation that may fail leaves a connector in good order.
unfoldable pub Keeps : Option Connector → Type 0
Keeps r = (c' : Connector) → r ≡ some c' → IsSound c'

pub keep : {c : Connector} → IsSound c → Keeps (some c)
unfolding Keeps
keep {c} s c' e = subst IsSound (some_inj e) s

pub fails : Keeps none
unfolding Keeps
fails c' e = absurd cc

pub retry-IsSound :
    (c : Connector)
    → c.created ≡ c.closed + 1 + c.handed
    → Slot c.channel disconnected c.resets
    → init_retry_delay_ms ≤ c.retry_delay_ms
    → c.retry_delay_ms ≤ max_retry_delay_ms
    → IsSound (retry c)
unfolding retry close
retry-IsSound c b k l u = elim (Bool-cases c.connect) [
  | inl on ↦ simp on (record {
    balanced = omega (arith, b);
    slot = k;
    at_least = omega (arith, l);
    at_most = omega (arith, u);
  })
  | inr off ↦ simp off (record { balanced = omega (arith, b); slot = k; at_least = l; at_most = u })
]

States-cases : (s : States) → (s ≡ disconnected) ⊎ ((s ≡ connecting) ⊎ (s ≡ connected))
States-cases disconnected = inl refl
States-cases connecting = inr (inl refl)
States-cases connected = inr (inr refl)

-- The invariant at a known state.
pub balanced-state :
    {c : Connector} (s : States)
    → IsSound c
    → c.state ≡ s
    → c.created ≡ c.closed + c.handed + live s
balanced-state {c} s h e = subst (λ t. c.created ≡ c.closed + c.handed + live t) e h.balanced

Slot-state : {c : Connector} (s : States) → IsSound c → c.state ≡ s → Slot c.channel s c.resets
Slot-state {c} s h e = subst (λ t. Slot c.channel t c.resets) e h.slot

pub Slot-channel :
    {c : Connector} (s : States) (b : Bool)
    → IsSound c
    → c.state ≡ s
    → c.channel ≡ b
    → Slot b s c.resets
Slot-channel {c} s b h e f = subst (λ x. Slot x s c.resets) f (Slot-state s h e)

do_connect-Keeps :
    (c : Connector) (a : Answer) → c.state ≡ disconnected → IsSound c → Keeps (do_connect c a)
unfolding do_connect begin_connecting close
do_connect-Keeps c proceeds d s = elim (Bool-cases c.channel) [
  | inl there ↦ simp there fails
  | inr free ↦ simp free (
      keep (record {
        balanced = omega (arith, balanced-state disconnected s d);
        slot = Slot-channel disconnected false s d free;
        at_least = s.at_least;
        at_most = s.at_most;
      }))
]
do_connect-Keeps c later d s = keep (
    retry-IsSound (record c { created = c.created + 1 })
      (omega (arith, balanced-state disconnected s d)) (Slot-state disconnected s d) s.at_least
      s.at_most)
do_connect-Keeps c refused d s = keep (record {
  balanced = omega (arith, balanced-state disconnected s d, ap live d);
  slot = s.slot;
  at_least = s.at_least;
  at_most = s.at_most;
})

pub guard-Keeps :
    (b : Bool) (r : Option Connector) → (b ≡ true → Keeps r) → Keeps (guard b >>= λ _. r)
guard-Keeps true r h = h refl
guard-Keeps false r h = fails

pub if-Keeps :
    (b : Bool) (r r' : Option Connector)
    → (b ≡ true → Keeps r)
    → (b ≡ false → Keeps r')
    → Keeps (if b then r else r')
if-Keeps true r r' h h' = h refl
if-Keeps false r r' h h' = h' refl

-- `removeAndResetChannel` and what follows it.
pub bind-Keeps :
    (b : Bool) (x : Connector) (f : Connector → Connector)
    → (b ≡ true → Keeps (some (f x)))
    → Keeps ((guard b >>= λ _. some x) >>= λ c. some (f c))
bind-Keeps true x f h = h refl
bind-Keeps false x f h = fails

is_disconnected_lem : (s : States) → is_disconnected s ≡ true → s ≡ disconnected
is_disconnected_lem disconnected e = refl
is_disconnected_lem connecting e = absurd cc
is_disconnected_lem connected e = absurd cc

pub is_connecting_lem : (s : States) → is_connecting s ≡ true → s ≡ connecting
is_connecting_lem disconnected e = absurd cc
is_connecting_lem connecting e = refl
is_connecting_lem connected e = absurd cc

pub start_in_loop-Keeps : (c : Connector) (a : Answer) → IsSound c → Keeps (start_in_loop c a)
unfolding start_in_loop
start_in_loop-Keeps c a s = guard-Keeps (is_disconnected c.state) _ (λ d.
    if-Keeps c.connect _ _
      (λ on.
        do_connect-Keeps (record c { retry_connector = false }) a (is_disconnected_lem c.state d)
          idle)
      (λ off. keep idle))
  where
    idle : IsSound (record c { retry_connector = false })
    idle = record {
      balanced = s.balanced;
      slot = s.slot;
      at_least = s.at_least;
      at_most = s.at_most;
    }
