-- ===== src/Tcp/Connection/Written.antt =====
-- What waits goes out when the socket is writable.
use pallette.Base.{
  ℕ, zero, suc, ◌≡◌, refl, ap, sym, ◌∙◌, inl, inr, true, false, List, [], ◌∷◌, ◌++◌, some, arith,
  append_assoc, subst,
}
use pallette.Base.Tests.{ltb, leb, ◌==◌, if◌then◌else◌, Bool-cases, leb→le, lt→ltb}
use pallette.Base.Lists.{length, take, drop, take-append-drop, length-take}
use pallette.Buffer.{Buffer, readable_bytes}
use pallette.Buffer.Inv.{Holds}
use pallette.Buffer.Reads.{readable_bytes-Holds, retrieve_lem, string_at_lem}
use pallette.Tcp.Connection.{
  is_disconnected, is_disconnecting, TcpConnection, Write, wrote, write_failed, shutdown_in_loop,
  handle_write, written_some, all_written,
}
use pallette.Tcp.Connection.Flows.{Flows, takes, Delivers, full}

-- What `handleWrite` does to the flags once all is written.
pub all_written-same :
    (c : TcpConnection) (n : ℕ)
    → ((all_written c n).wire ≡ c.wire)
      × ((all_written c n).output ≡ c.output)
      × ((all_written c n).state ≡ c.state)
      × ((all_written c n).channel_writing ≡ false)
unfolding all_written shutdown_in_loop
all_written-same c n = elim (Bool-cases c.write_complete_callback) [
  | inl e ↦ elim (Bool-cases (is_disconnecting c.state)) [
    | inl d ↦ simp (e, d) (refl, refl, refl, refl)
    | inr d ↦ simp (e, d) (refl, refl, refl, refl)
  ]
  | inr e ↦ elim (Bool-cases (is_disconnecting c.state)) [
    | inl d ↦ simp (e, d) (refl, refl, refl, refl)
    | inr d ↦ simp (e, d) (refl, refl, refl, refl)
  ]
]

suc_nonzero : (n : ℕ) → (suc n == 0) ≡ false
suc_nonzero n = ground arith

-- Once `xs` is written, `b` holds the rest.
left-Delivers :
    (c : TcpConnection) (b : Buffer) (xs ys : List ℕ)
    → Flows c (xs ++ ys)
    → Holds b ys
    → (let c' = record c { output = b; wire = c.wire ++ xs } in
        Delivers
          (some (if readable_bytes b == 0 then all_written c' (length xs) else c'))
          (c.wire ++ (xs ++ ys)))
unfolding Delivers
left-Delivers c b xs [] f h =
    let c' = record c { output = b; wire = c.wire ++ xs } in
    let (wire', output', state', writing') = all_written-same c' (length xs) in
    simp (readable_bytes-Holds b [] h) (
      all_written c' (length xs),
      refl,
      (
        [],
        record {
          live = ap is_disconnected state' ∙ f.live;
          waits = subst (λ b'. Holds b' []) (sym output') h;
          watched = writing';
        },
        ap (λ zs. zs ++ []) wire' ∙ append_assoc c.wire xs [],
      ),
    )
left-Delivers c b xs (y ∷ ys) f h =
    simp (readable_bytes-Holds b (y ∷ ys) h, suc_nonzero (length ys))
      (
        record c { output = b; wire = c.wire ++ xs },
        refl,
        (
          y ∷ ys,
          record { live = f.live; waits = h; watched = f.watched ∙ full xs y ys },
          append_assoc c.wire xs (y ∷ ys),
        ),
      )

written_some-Delivers :
    (c : TcpConnection) (xs ys : List ℕ)
    → Flows c (xs ++ ys)
    → Delivers (written_some c (length xs)) (c.wire ++ (xs ++ ys))
unfolding written_some
written_some-Delivers c xs ys f =
    let (b, e, h) = retrieve_lem c.output xs ys f.waits in
    rw (string_at_lem c.output xs ys f.waits, e) (left-Delivers c b xs ys f h)

stays-Delivers : (c : TcpConnection) (xs : List ℕ) → Flows c xs → Delivers (some c) (c.wire ++ xs)
unfolding Delivers
stays-Delivers c xs f = (c, refl, (xs, f, refl))

-- `handleWrite` moves bytes from the front of the output buffer to the kernel: if the kernel takes
-- at most what waits, it succeeds, what was sent or waits is the same as before, in order, and the
-- write event is watched exactly while something waits. An error that `write` reports, other than
-- EPIPE and ECONNRESET, changes nothing.
pub handle_write-Delivers :
    (c : TcpConnection) (xs : List ℕ) (w : Write)
    → Flows c xs
    → takes w (length xs) ≡ true
    → Delivers (handle_write c w) (c.wire ++ xs)
unfolding handle_write
handle_write-Delivers c [] w f t = simp f.watched (stays-Delivers c [] f)
handle_write-Delivers c (x ∷ xs) (wrote n) f t = simp f.watched (wrote_lem n t)
  where
    wrote_lem :
        (n : ℕ)
        → leb n (length (x ∷ xs)) ≡ true
        → Delivers (if ltb 0 n then written_some c n else some c) (c.wire ++ (x ∷ xs))
    wrote_lem zero t = stays-Delivers c (x ∷ xs) f
    wrote_lem (suc n) t =
        let e : length (take (suc n) (x ∷ xs)) ≡ suc n =
          omega (arith, length-take (suc n) (x ∷ xs), leb→le _ _ t) in
        let k = take-append-drop (suc n) (x ∷ xs) in
        rw (lt→ltb 0 (suc n) (omega arith)) (
          subst (λ zs. Delivers (written_some c (suc n)) (c.wire ++ zs)) k
            (subst
              (λ m.
                Delivers (written_some c m)
                  (c.wire ++ (take (suc n) (x ∷ xs) ++ drop (suc n) (x ∷ xs))))
              e
              (written_some-Delivers c (take (suc n) (x ∷ xs)) (drop (suc n) (x ∷ xs))
                (subst (Flows c) (sym k) f))))
handle_write-Delivers c (x ∷ xs) (write_failed e) f t = simp f.watched (stays-Delivers c (x ∷ xs) f)
