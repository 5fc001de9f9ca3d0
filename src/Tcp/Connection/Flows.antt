-- ===== src/Tcp/Connection/Flows.antt =====
-- What is sent goes out in order, or waits in the output buffer.
use pallette.Base.{
  ℕ, ◌≡◌, refl, ap, sym, ◌∙◌, inl, inr, Bool, true, false, not, ◌&&◌, List, [], ◌∷◌, ◌++◌, Option,
  some, append_assoc, append-nil, subst,
}
use pallette.Base.Tests.{leb, ◌==◌, if◌then◌else◌, Bool-cases}
use pallette.Base.Lists.{length, take, drop, take-append-drop}
use pallette.Buffer.{Buffer}
use pallette.Buffer.Inv.{Holds}
use pallette.Buffer.Ops.{append_lem}
use pallette.Buffer.Reads.{readable_bytes-Holds}
use pallette.Tcp.Connection.{
  is_disconnected, TcpConnection, Write, wrote, write_failed, would_block, broken, other, keep_rest,
  after_write, write_direct, send_in_loop, queue, high_water_mark_reached,
}

abbrev pub empty : List ℕ → Bool
empty [] = true
empty (_ ∷ _) = false

-- `xs` waits in the output buffer, and the write event is watched exactly while something waits.
pub record Flows (c : TcpConnection) (xs : List ℕ) : Type 0 where
  pub live : is_disconnected c.state ≡ false
  pub waits : Holds c.output xs
  pub watched : c.channel_writing ≡ not (empty xs)

-- The kernel takes at most what it is given, and the peer has not reset the connection.
abbrev pub takes : Write → ℕ → Bool
takes (wrote n) k = leb n k
takes (write_failed broken) k = false
takes (write_failed would_block) k = true
takes (write_failed other) k = true

-- An operation succeeds, and all that there is to send is then `all`, in this order.
unfoldable pub Delivers : Option TcpConnection → List ℕ → Type 0
Delivers r all =
    (c' : TcpConnection) × (r ≡ some c') × ((ys : List ℕ) × Flows c' ys × (c'.wire ++ ys ≡ all))

after_write-same :
    (c : TcpConnection) (xs : List ℕ) (n : ℕ)
    → ((after_write c xs n).wire ≡ c.wire ++ take n xs)
      × ((after_write c xs n).output ≡ c.output)
      × ((after_write c xs n).state ≡ c.state)
      × ((after_write c xs n).channel_writing ≡ c.channel_writing)
unfolding after_write
after_write-same c xs n = elim (Bool-cases ((n == length xs) && c.write_complete_callback)) [
  | inl e ↦ simp e (refl, refl, refl, refl)
  | inr e ↦ simp e (refl, refl, refl, refl)
]

pub full : (xs : List ℕ) (y : ℕ) (ys : List ℕ) → not (empty (xs ++ y ∷ ys)) ≡ true
full [] y ys = refl
full (x ∷ xs) y ys = refl

kept-Delivers :
    (c : TcpConnection) (told known : Bool) (n : ℕ) (b : Buffer) (xs : List ℕ) (y : ℕ) (ys : List ℕ)
    → is_disconnected c.state ≡ false
    → Holds b (xs ++ y ∷ ys)
    → Delivers
        (some (record (if told then queue c (high_water_mark_reached n) else c) {
          output = b;
          channel_writing = true;
          in_poller = known;
        }))
        (c.wire ++ (xs ++ y ∷ ys))
unfolding Delivers
kept-Delivers c true known n b xs y ys live h =
    (_, refl, (xs ++ y ∷ ys, record { live = live; waits = h; watched = sym (full xs y ys) }, refl))
kept-Delivers c false known n b xs y ys live h =
    (_, refl, (xs ++ y ∷ ys, record { live = live; waits = h; watched = sym (full xs y ys) }, refl))

-- What the kernel did not take goes behind what waits.
keep_rest-Delivers :
    (c : TcpConnection) (xs ys : List ℕ)
    → Flows c xs
    → Delivers (keep_rest c ys) (c.wire ++ (xs ++ ys))
unfolding keep_rest Delivers
keep_rest-Delivers c xs [] f = (c, refl, (xs, f, ap (λ zs. c.wire ++ zs) (sym (append-nil xs))))
keep_rest-Delivers c xs (y ∷ ys) f =
    let (b, e, h) = append_lem c.output xs (y ∷ ys) f.waits in
    rw e (kept-Delivers c _ _ _ b xs y ys f.live h)

after_write-Flows :
    (c : TcpConnection) (ys : List ℕ) (n : ℕ) → Flows c [] → Flows (after_write c ys n) []
after_write-Flows c ys n f =
    let (wire', output', state', writing') = after_write-same c ys n in
    record {
      live = ap is_disconnected state' ∙ f.live;
      waits = subst (λ b. Holds b []) (sym output') f.waits;
      watched = writing' ∙ f.watched;
    }

write_direct-Delivers :
    (c : TcpConnection) (ys : List ℕ) (w : Write)
    → Flows c []
    → takes w (length ys) ≡ true
    → Delivers (write_direct c ys w) (c.wire ++ ys)
unfolding write_direct
write_direct-Delivers c ys (wrote n) f t =
    let (wire', _, _, _) = after_write-same c ys n in
    let all : (after_write c ys n).wire ++ drop n ys ≡ c.wire ++ ys =
      ap (λ zs. zs ++ drop n ys) wire'
      ∙ append_assoc c.wire (take n ys) (drop n ys)
      ∙ ap (λ zs. c.wire ++ zs) (take-append-drop n ys) in
    rw t (
      subst (Delivers (keep_rest (after_write c ys n) (drop n ys))) all
        (keep_rest-Delivers (after_write c ys n) [] (drop n ys) (after_write-Flows c ys n f)))
write_direct-Delivers c ys (write_failed would_block) f t = keep_rest-Delivers c [] ys f
write_direct-Delivers c ys (write_failed broken) f t = absurd (cc)
write_direct-Delivers c ys (write_failed other) f t = keep_rest-Delivers c [] ys f

-- `sendInLoop` loses nothing and keeps the order, however much the kernel takes at once: on a
-- connection that is not disconnected, whose write event is watched exactly while bytes wait, and
-- with a write that does not fail with EPIPE or ECONNRESET, it succeeds, what was sent or waits is
-- then followed by the new bytes, and the watching is as before.
pub send_in_loop-Delivers :
    (c : TcpConnection) (xs ys : List ℕ) (w : Write)
    → Flows c xs
    → takes w (length ys) ≡ true
    → Delivers (send_in_loop c ys w) (c.wire ++ (xs ++ ys))
unfolding send_in_loop
send_in_loop-Delivers c [] ys w f t =
    simp (f.live, f.watched, readable_bytes-Holds c.output [] f.waits)
      (write_direct-Delivers c ys w f t)
send_in_loop-Delivers c (x ∷ xs) ys w f t =
    simp (f.live, f.watched) (keep_rest-Delivers c (x ∷ xs) ys f)
