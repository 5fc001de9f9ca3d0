-- ===== src/Tcp/Connector/Events.antt =====
-- The events of an attempt keep a connector in good order.
use pallette.Base.{not, ◌&&◌}
use pallette.Base.{
  ℕ, ◌+◌, ◌-◌, ◌≡◌, refl, sym, ◌∙◌, subst, inl, inr, Bool, true, false, not, ◌||◌, some, arith,
}
use pallette.Base.Tests.{◌==◌, if◌then◌else◌, Bool-cases}
use pallette.Buffer.{◌>>=◌}
use pallette.Tcp.Connector.{
  Connector, States, disconnected, connecting, connected, is_connecting, is_disconnected, close,
  retry, remove_and_reset_channel, stop_in_loop, handle_write, handle_error,
}
use pallette.Tcp.Connector.Sound.{
  Slot, IsSound, Keeps, keep, retry-IsSound, balanced-state, Slot-channel, guard-Keeps, if-Keeps,
  bind-Keeps, is_connecting_lem,
}

-- A connecting connector has a channel to give up.
drop_lem :
    (c : Connector)
    → c.state ≡ connecting
    → IsSound c
    → (c.channel ≡ true)
      × (c.created ≡ c.closed + 1 + c.handed)
      × Slot c.channel disconnected (c.resets + 1)
drop_lem c busy s = elim (Bool-cases c.channel) [
  | inl there ↦ (
    there,
    omega (arith, balanced-state connecting s busy),
    subst (λ x. Slot x disconnected (c.resets + 1)) (sym there)
        (omega (arith, Slot-channel connecting true s busy there)),
  )
  | inr free ↦ absurd (omega (arith, Slot-channel connecting false s busy free))
]

dropped-IsSound :
    (c : Connector)
    → is_connecting c.state ≡ true
    → IsSound c
    → IsSound (retry (record c { resets = c.resets + 1 }))
dropped-IsSound c busy s =
    let (there, b, k) = drop_lem c (is_connecting_lem c.state busy) s in
    retry-IsSound (record c { resets = c.resets + 1 }) b k s.at_least s.at_most

pub handle_error-Keeps : (c : Connector) → IsSound c → Keeps (handle_error c)
unfolding handle_error remove_and_reset_channel
handle_error-Keeps c s =
    if-Keeps (is_connecting c.state) _ _
      (λ busy. bind-Keeps c.channel _ _ (λ there. keep (dropped-IsSound c busy s))) (λ idle. keep s)

-- The two ends of a connection that was made.
made-IsSound :
    (c : Connector)
    → c.state ≡ connecting
    → IsSound c
    → Keeps (
        some (
          if c.connect
          then record c { resets = c.resets + 1; state = connected; handed = c.handed + 1 }
          else close (record c { resets = c.resets + 1; state = connected })))
unfolding close
made-IsSound c busy s =
    let (there, b, k) = drop_lem c busy s in
    elim (Bool-cases c.connect) [
      | inl on ↦ simp on (
          keep (record {
            balanced = omega (arith, b);
            slot = k';
            at_least = s.at_least;
            at_most = s.at_most;
          }))
      | inr off ↦ simp off (
          keep (record {
            balanced = omega (arith, b);
            slot = k';
            at_least = s.at_least;
            at_most = s.at_most;
          }))
    ]
  where
    same : (x : Bool) → Slot x disconnected (c.resets + 1) → Slot x connected (c.resets + 1)
    same true h = h
    same false h = h

    k' : Slot c.channel connected (c.resets + 1)
    k' = let (there, b, k) = drop_lem c busy s in same c.channel k

pub handle_write-Keeps :
    (c : Connector) (err : ℕ) (self : Bool) → IsSound c → Keeps (handle_write c err self)
unfolding handle_write remove_and_reset_channel
handle_write-Keeps c err self s =
    if-Keeps (is_connecting c.state) _ _
      (λ busy.
        bind-Keeps c.channel _
          (λ c'.
            if not (err == 0) || self
            then retry c'
            else (if c'.connect
                then record c' { state = connected; handed = c'.handed + 1 }
                else close (record c' { state = connected })))
          (λ there. chosen _ busy))
      (λ idle. guard-Keeps (is_disconnected c.state) _ (λ d. keep s))
  where
    chosen :
        (b : Bool)
        → is_connecting c.state ≡ true
        → Keeps (
            some (
              if b
              then retry (record c { resets = c.resets + 1 })
              else (if c.connect
                  then record c { resets = c.resets + 1; state = connected; handed = c.handed + 1 }
                  else close (record c { resets = c.resets + 1; state = connected }))))
    chosen true busy = keep (dropped-IsSound c busy s)
    chosen false busy = made-IsSound c (is_connecting_lem c.state busy) s

-- The rest of `stopInLoop`.
stopped-Keeps :
    (c : Connector) (s : States)
    → c.state ≡ s
    → IsSound c
    → Keeps (
        if is_connecting s
        then (remove_and_reset_channel (record c { state = disconnected }) >>= λ c'.
            some (retry c'))
        else some c)
unfolding remove_and_reset_channel
stopped-Keeps c s e h =
    if-Keeps (is_connecting s) _ _
      (λ busy. bind-Keeps c.channel _ _ (λ there.
        let (_, b, k) = drop_lem c (e ∙ is_connecting_lem s busy) h in
        keep (
          retry-IsSound (record c { state = disconnected; resets = c.resets + 1 }) b k h.at_least
            h.at_most)))
      (λ idle. keep h)

pub stop_in_loop-Keeps : (c : Connector) → IsSound c → Keeps (stop_in_loop c)
unfolding stop_in_loop
stop_in_loop-Keeps c h = stopped-Keeps (cancelled test) c.state (same test) (sound test)
  where
    test : Bool
    test = c.retry_connector && not c.canceled

    cancelled : Bool → Connector
    cancelled b = if b then record c { timers = c.timers - 1; canceled = true } else c

    same : (b : Bool) → (cancelled b).state ≡ c.state
    same true = refl
    same false = refl

    sound : (b : Bool) → IsSound (cancelled b)
    sound true = record {
      balanced = h.balanced;
      slot = h.slot;
      at_least = h.at_least;
      at_most = h.at_most;
    }
    sound false = h
