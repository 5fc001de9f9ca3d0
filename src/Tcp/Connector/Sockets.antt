-- ===== src/Tcp/Connector/Sockets.antt =====
-- The sockets and the channel of a connector.
use pallette.Base.{
  ℕ, ◌-◌, ◌≤◌, ◌≡◌, refl, sym, ap, subst, Bool, true, false, not, Option, some, arith,
}
use pallette.Base.Tests.{ltb, ltb→lt}
use pallette.Buffer.{◌>>◌, guard}
use pallette.Tcp.Connector.{
  Connector, States, disconnected, connecting, connected, Answer, new, is_connecting,
  max_retry_delay_ms, init_retry_delay_ms, start_in_loop, start, stop, stop_in_loop, restart,
  reset_channel, handle_write, handle_error, on_timer,
}
use pallette.Tcp.Connector.Sound.{
  live, Slot, IsSound, Keeps, keep, guard-Keeps, start_in_loop-Keeps,
}
use pallette.Tcp.Connector.Events.{handle_error-Keeps, handle_write-Keeps, stop_in_loop-Keeps}

moved-IsSound :
    (c c' : Connector)
    → c'.created ≡ c.created
    → c'.closed ≡ c.closed
    → c'.handed ≡ c.handed
    → c'.state ≡ c.state
    → c'.channel ≡ c.channel
    → c'.resets ≡ c.resets
    → (init_retry_delay_ms ≤ c'.retry_delay_ms) × (c'.retry_delay_ms ≤ max_retry_delay_ms)
    → IsSound c
    → IsSound c'
moved-IsSound c c' e1 e2 e3 e4 e5 e6 (l, u) h = record {
  balanced = omega (arith, e1, e2, e3, ap live e4, h.balanced);
  slot =
      subst (λ n. Slot c'.channel c'.state n) (sym e6)
        (subst (λ b. Slot b c'.state c.resets) (sym e5)
          (subst (λ t. Slot c.channel t c.resets) (sym e4) h.slot));
  at_least = l;
  at_most = u;
}

-- The functor `resetChannel` runs while it is queued.
reset_channel-Keeps :
    (c : Connector) → ltb 0 c.resets ≡ true → IsSound c → Keeps (some (reset_channel c))
unfolding reset_channel
reset_channel-Keeps c q h = keep (record {
  balanced = h.balanced;
  slot = left_over c.channel c.state h.slot;
  at_least = h.at_least;
  at_most = h.at_most;
})
  where
    left_over : (b : Bool) (t : States) → Slot b t c.resets → Slot false t (c.resets - 1)
    left_over false disconnected k = omega (arith, k)
    left_over false connecting k = absurd (omega (arith, k))
    left_over false connected k = omega (arith, k)
    left_over true disconnected k = omega (arith, k)
    left_over true connecting k = absurd (omega (arith, k, ltb→lt 0 c.resets q))
    left_over true connected k = omega (arith, k)

restart-Keeps :
    (c : Connector) (a : Answer) → is_connecting c.state ≡ false → IsSound c → Keeps (restart c a)
unfolding restart
restart-Keeps c a i h =
    start_in_loop-Keeps
      (record c { state = disconnected; retry_delay_ms = init_retry_delay_ms; connect = true }) a
      (record {
        balanced = omega (arith, h.balanced, settled c.state i);
        slot = slot_lem c.channel c.state i h.slot;
        at_least = omega arith;
        at_most = omega arith;
      })
  where
    settled : (t : States) → is_connecting t ≡ false → live t ≡ 0
    settled disconnected i = refl
    settled connecting i = absurd cc
    settled connected i = refl

    slot_lem :
        (b : Bool) (t : States)
        → is_connecting t ≡ false
        → Slot b t c.resets
        → Slot b disconnected c.resets
    slot_lem b disconnected i k = k
    slot_lem b connecting i k = absurd cc
    slot_lem true connected i k = k
    slot_lem false connected i k = k

pub data Op : Type 0 where
  on_start on_start_functor on_restart on_retry : Answer → Op
  on_stop on_stop_functor on_reset on_error : Op
  on_write : (err : ℕ) → (self : Bool) → Op

-- An operation, at a time when the program calls it: a retry while one waits, `resetChannel` while
-- it is queued, and `restart` when no attempt is under way.
unfoldable pub step : Connector → Op → Option Connector
step c (on_start a) = start c a
step c (on_start_functor a) = start_in_loop c a
step c (on_restart a) = guard (not (is_connecting c.state)) >> restart c a
step c (on_retry a) = guard (ltb 0 c.timers) >> on_timer c a
step c on_stop = some (stop c)
step c on_stop_functor = stop_in_loop c
step c on_reset = guard (ltb 0 c.resets) >> some (reset_channel c)
step c on_error = handle_error c
step c (on_write err self) = handle_write c err self

not_lem : (b : Bool) → not b ≡ true → b ≡ false
not_lem true e = absurd cc
not_lem false e = refl

step-Keeps : (c : Connector) (o : Op) → IsSound c → Keeps (step c o)
unfolding step start on_timer stop
step-Keeps c (on_start a) h =
    start_in_loop-Keeps (record c { connect = true }) a
      (moved-IsSound c (record c { connect = true }) refl refl refl refl refl refl
        (h.at_least, h.at_most) h)
step-Keeps c (on_start_functor a) h = start_in_loop-Keeps c a h
step-Keeps c (on_restart a) h =
    guard-Keeps (not (is_connecting c.state)) _ (λ i. restart-Keeps c a (not_lem _ i) h)
step-Keeps c (on_retry a) h = guard-Keeps (ltb 0 c.timers) _ (λ t.
    start_in_loop-Keeps (record c { timers = c.timers - 1 }) a
      (moved-IsSound c (record c { timers = c.timers - 1 }) refl refl refl refl refl refl
        (h.at_least, h.at_most) h))
step-Keeps c on_stop h = keep (
    moved-IsSound c (record c { connect = false }) refl refl refl refl refl refl
      (h.at_least, h.at_most) h)
step-Keeps c on_stop_functor h = stop_in_loop-Keeps c h
step-Keeps c on_reset h = guard-Keeps (ltb 0 c.resets) _ (λ q. reset_channel-Keeps c q h)
step-Keeps c on_error h = handle_error-Keeps c h
step-Keeps c (on_write err self) h = handle_write-Keeps c err self h

-- Operations that a connector goes through, none of which fails.
pub data Run : Connector → Connector → Type 0 where
  done : {c : Connector} → Run c c
  next : {c c' d : Connector} (o : Op) → step c o ≡ some c' → Run c' d → Run c d

new-IsSound : IsSound new
new-IsSound = record { balanced = refl; slot = refl; at_least = omega arith; at_most = omega arith }

Run-Keeps : (c d : Connector) → Run c d → IsSound c → IsSound d
unfolding Keeps
Run-Keeps c d done h = h
Run-Keeps c d (next {c' = c'} o e r) h = Run-Keeps c' d r (step-Keeps c o h c' e)

-- Whatever sequence of operations a new connector goes through, none of which fails, with
-- `resetChannel` run only while it is queued and `restart` called only when no attempt is under
-- way: every socket that it created was closed or handed on, once, but for the one socket of an
-- attempt under way; the functor `resetChannel` is queued exactly once if a channel is left over
-- and not at all otherwise; a connector that connects has its channel; and the delay before the
-- next retry is between half a second and thirty seconds.
pub Run-IsSound : (d : Connector) → Run new d → IsSound d
Run-IsSound d r = Run-Keeps new d r new-IsSound
