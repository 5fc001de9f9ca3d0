-- ===== src/Tcp/Connection/Stream.antt =====
-- The bytes that a connection was asked to send: those that the kernel took, then those in the
-- output buffer.
use pallette.Base.{
  ℕ, zero, suc, ◌≡◌, refl, ap, sym, ◌∙◌, inl, inr, true, List, [], ◌∷◌, ◌++◌, min, Option, some,
  arith, append_assoc, append-nil, subst,
}
use pallette.Base.Tests.{Bool-cases, le→leb, lt→ltb}
use pallette.Base.Lists.{length}
use pallette.Buffer.{readable_bytes, ◌>>=◌}
use pallette.Buffer.Inv.{Holds}
use pallette.Buffer.Reads.{readable_bytes-Holds, retrieve_lem, string_at_lem}
use pallette.Tcp.Connection.{
  connected, disconnecting, TcpConnection, Write, wrote, write_failed, would_block,
  shutdown_in_loop, shutdown, send_in_loop, handle_write, written_some, all_written,
}
use pallette.Tcp.Connection.Flows.{Flows, takes, Delivers, send_in_loop-Delivers}
use pallette.Tcp.Connection.Written.{all_written-same, handle_write-Delivers}

-- What `write` answers when the socket's send buffer has `room` and is offered `k` bytes.
abbrev pub answer : (room k : ℕ) → Write
answer zero k = write_failed would_block
answer (suc room) k = wrote (min (suc room) k)

answer-takes : (room k : ℕ) → takes (answer room k) k ≡ true
answer-takes zero k = refl
answer-takes (suc room) k = le→leb (min (suc room) k) k (omega arith)

-- What happens to the bytes to send: `send` in the loop's thread, and a writable socket.
pub data Event : Type 0 where
  sends : List ℕ → (room : ℕ) → Event
  writable : (room : ℕ) → Event

pub handle : TcpConnection → Event → Option TcpConnection
handle c (sends ys room) = send_in_loop c ys (answer room (length ys))
handle c (writable room) = handle_write c (answer room (readable_bytes c.output))

pub run : TcpConnection → List Event → Option TcpConnection
run c [] = some c
run c (e ∷ es) = handle c e >>= λ c'. run c' es

-- All that the events ask to send.
abbrev pub asked : List Event → List ℕ
asked [] = []
asked (sends ys room ∷ es) = ys ++ asked es
asked (writable room ∷ es) = asked es

handle-Delivers :
    (c : TcpConnection) (xs : List ℕ) (e : Event)
    → Flows c xs
    → Delivers (handle c e) (c.wire ++ (xs ++ asked (e ∷ [])))
unfolding handle
handle-Delivers c xs (sends ys room) f =
    subst (λ zs. Delivers (handle c (sends ys room)) (c.wire ++ (xs ++ zs))) (sym (append-nil ys))
      (send_in_loop-Delivers c xs ys (answer room (length ys)) f (answer-takes room (length ys)))
handle-Delivers c xs (writable room) f =
    let fits =
      ap (takes (answer room (readable_bytes c.output)))
        (sym (readable_bytes-Holds c.output xs f.waits))
      ∙ answer-takes room (readable_bytes c.output) in
    subst (λ zs. Delivers (handle c (writable room)) (c.wire ++ zs)) (sym (append-nil xs))
      (handle_write-Delivers c xs (answer room (readable_bytes c.output)) f fits)

asked-cons : (e : Event) (es : List Event) → asked (e ∷ []) ++ asked es ≡ asked (e ∷ es)
asked-cons (sends ys room) es = ap (λ zs. zs ++ asked es) (append-nil ys)
asked-cons (writable room) es = refl

-- Along any sequence of sends and writable events, with any room in the socket's send buffer at
-- each, no operation fails, and what the kernel took followed by what waits in the output buffer
-- is all that was there and all that was asked to be sent since, in order, nothing lost and
-- nothing twice; the write event is watched at the end exactly while something waits. The
-- connection must not be disconnected at the start, hold `xs` in its output buffer, and watch the
-- write event exactly if `xs` is not empty.
pub run-Delivers :
    (c : TcpConnection) (xs : List ℕ) (es : List Event)
    → Flows c xs
    → Delivers (run c es) (c.wire ++ (xs ++ asked es))
unfolding run Delivers
run-Delivers c xs [] f = (c, refl, (xs, f, ap (λ zs. c.wire ++ zs) (sym (append-nil xs))))
run-Delivers c xs (e ∷ es) f =
    let (c', r, (ys, f', k)) = handle-Delivers c xs e f in
    let (c'', r', (zs, f'', k')) = run-Delivers c' ys es f' in
    (
      c'',
      ap (λ o. o >>= λ d. run d es) r ∙ r',
      (
        zs,
        f'',
        k'
            ∙ sym (append_assoc c'.wire ys (asked es))
            ∙ ap (λ ws. ws ++ asked es) k
            ∙ append_assoc c.wire (xs ++ asked (e ∷ [])) (asked es)
            ∙ ap (λ ws. c.wire ++ ws)
                (append_assoc xs (asked (e ∷ [])) (asked es)
                  ∙ ap (λ ws. xs ++ ws) (asked-cons e es)),
      ),
    )

all_written-shut :
    (c : TcpConnection) (n : ℕ) → c.state ≡ disconnecting → (all_written c n).write_shut ≡ true
unfolding all_written shutdown_in_loop
all_written-shut c n d = elim (Bool-cases c.write_complete_callback) [
  | inl e ↦ simp (e, d) refl
  | inr e ↦ simp (e, d) refl
]

shutdown_lem :
    (c : TcpConnection)
    → c.state ≡ connected
    → c.channel_writing ≡ true
    → shutdown true c ≡ record c { state = disconnecting }
unfolding shutdown shutdown_in_loop
shutdown_lem c s w = simp (s, w) refl

-- `shutdown` of a connected connection with bytes waiting leaves the write side open, and the
-- event at which the kernel takes the last of them sends them all and then shuts it down.
pub handle_write-shutdown :
    (c : TcpConnection) (x : ℕ) (xs : List ℕ)
    → c.state ≡ connected
    → Flows c (x ∷ xs)
    → ((shutdown true c).write_shut ≡ c.write_shut)
      × ((c' : TcpConnection) × (handle_write (shutdown true c) (wrote (length (x ∷ xs))) ≡ some c')
          × (c'.wire ≡ c.wire ++ (x ∷ xs))
          × (c'.write_shut ≡ true))
unfolding handle_write written_some
handle_write-shutdown c x xs s f =
    let all = subst (Holds c.output) (sym (append-nil (x ∷ xs))) f.waits in
    let (b, e, h) = retrieve_lem c.output (x ∷ xs) [] all in
    let c' = record c { state = disconnecting; output = b; wire = c.wire ++ (x ∷ xs) } in
    let n = length (x ∷ xs) in
    let (wire', _, _, _) = all_written-same c' n in
    rw (shutdown_lem c s f.watched) (
      refl,
      (
        all_written c' n,
        simp
            (
              f.watched,
              lt→ltb 0 n (omega arith),
              string_at_lem c.output (x ∷ xs) [] all,
              e,
              readable_bytes-Holds b [] h,
            )
            refl,
        wire',
        all_written-shut c' n refl,
      ),
    )
