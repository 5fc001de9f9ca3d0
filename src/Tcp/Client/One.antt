-- ===== src/Tcp/Client/One.antt =====
-- A client has one connection at most, and what a second `connect` does.
use pallette.Base.{
  ◌⊎◌, ◌-◌, ℕ, ◌<◌, ◌≡◌, refl, sym, ap, ◌∙◌, subst, Bool, true, false, not, ◌&&◌, inl, inr, List,
  [], ◌∷◌, ◌++◌, Option, none, some, arith,
}
use pallette.Base.Tests.{ltb→lt, ltb, if◌then◌else◌, Bool-cases, some_inj, ==_refl}
use pallette.Buffer.Results.{bind_some, guard-some, none-some}
use pallette.Buffer.{◌>>=◌}
use pallette.Tcp.Connector.{
  Connector, Answer, States, disconnected, connecting, connected, is_connecting, is_disconnected,
  stop_in_loop, reset_channel, handle_write, handle_error, on_timer, start_in_loop, start,
}
use pallette.Tcp.Connector
use pallette.Tcp.Client.{
  shuts, destroys, Connection, TcpClient, post, connect, disconnect, stop, shut_down,
  remove_connection, is_same, Event, on_event, made, new_connection, on_write, Reaches, begins,
  enables, connects_to, disconnects, stops_at, handles, hands_over, fails_to, closes, stops, resets,
  errs, retries,
}

-- A connector whose socket was handed over starts nothing,
start_in_loop-connected :
    (c : Connector) (a : Answer) → c.state ≡ connected → start_in_loop c a ≡ none
unfolding start_in_loop
start_in_loop-connected c a h = rw h refl

-- and stays so.
on_event-connected :
    (c c' : Connector) (e : Event)
    → c.state ≡ connected
    → on_event c e ≡ some c'
    → c'.state ≡ connected
unfolding on_event stop_in_loop reset_channel handle_error on_timer
on_event-connected c c' stops h e = ground (arith, h, e)
on_event-connected c c' resets h e = ap (λ c. c.state) (sym (some_inj e)) ∙ h
on_event-connected c c' errs h e = ground (arith, h, e)
on_event-connected c c' (retries a) h e =
    ground (arith, e, start_in_loop-connected (record c { timers = c.timers - 1 }) a h)

handle_write-connected :
    (c : Connector) (err : ℕ) (self : Bool) → c.state ≡ connected → handle_write c err self ≡ none
unfolding handle_write
handle_write-connected c err self h = rw h refl

handle_write-hands :
    (c c' : Connector) (err : ℕ) (self : Bool)
    → handle_write c err self ≡ some c'
    → c.handed < c'.handed
    → c'.state ≡ connected
unfolding handle_write
handle_write-hands c c' err self h l = ground (arith, h, l)

-- A client that has a connection has a connector that is connected.
abbrev Settled : Option Connection → States → Type 0
Settled none s = Unit
Settled (some c) s = s ≡ connected

abbrev own : Option Connection → List Connection
own none = []
own (some c) = c ∷ []

Settled-keeps :
    (o : Option Connection) (s t : States)
    → (s ≡ connected → t ≡ connected)
    → Settled o s
    → Settled o t
Settled-keeps none s t k h = tt
Settled-keeps (some c) s t k h = k h

-- Where a connector cannot be connected, there is no connection.
Settled-none : (o : Option Connection) (s : States) → (s ≡ connected → ⊥) → Settled o s → o ≡ none
Settled-none none s k h = refl
Settled-none (some c) s k h = absurd (k h)

abbrev Keeps : List Connection → TcpClient → Type 0
Keeps live s = (live ≡ own s.connection) × Settled s.connection s.connector.state

start-connected : (c : Connector) (a : Answer) → c.state ≡ connected → start c a ≡ none
unfolding start
start-connected c a h = start_in_loop-connected (record c { connect = true }) a h

module _ (live : List Connection) (s : TcpClient) where
  connect-Keeps : (t : TcpClient) (a : Answer) → Keeps live s → connect s a ≡ some t → Keeps live t
  unfolding connect
  connect-Keeps t a (o, h) e = elim (Bool-cases (not s.connects)) [
    | inl p ↦
        let (c, e1, e2) =
          bind_some (start s.connector a) (λ c. some (record s { connects = true; connector = c }))
            t (simp p at e) in
        subst (λ t. Keeps live t) (some_inj e2)
          (
            o,
            Settled-keeps s.connection s.connector.state c.state
                (λ k. none-some (start-connected s.connector a k) e1) h,
          )
    | inr p ↦ subst (λ t. Keeps live t) (some_inj (simp p at e)) (o, h)
  ]

  shut_down-Keeps : (o : Option Connection) → Keeps live s → Keeps live (shut_down s o)
  shut_down-Keeps none h = h
  shut_down-Keeps (some c) h = h

  on_event-Keeps :
      (c : Connector) (e : Event)
      → Keeps live s
      → on_event s.connector e ≡ some c
      → Keeps live (record s { connector = c })
  on_event-Keeps c e (o, h) k = (
    o,
    Settled-keeps s.connection s.connector.state c.state
        (λ q. on_event-connected s.connector c e q k) h,
  )

  abbrev Written : (decimal : ℕ → List ℕ) (ip_port name : List ℕ) → TcpClient → Type 0
  Written decimal ip_port name t =
      ((s.next_conn_id < t.next_conn_id) × Keeps (made decimal ip_port name s ∷ live) t)
      ⊎ ((t.next_conn_id ≡ s.next_conn_id) × Keeps live t)

  -- The socket is handed over only by a connector that was connecting, so there is no connection.
  on_write-Keeps :
      (decimal : ℕ → List ℕ) (ip_port name : List ℕ) (err : ℕ) (self : Bool) (t : TcpClient)
      → Keeps live s
      → on_write decimal ip_port name s err self ≡ some t
      → Written decimal ip_port name t
  unfolding on_write new_connection
  on_write-Keeps decimal ip_port name err self t (o, h) e =
      let (c, e1, e2) = bind_some (handle_write s.connector err self) _ t e in
      let n =
        Settled-none s.connection s.connector.state
          (λ q. none-some (handle_write-connected s.connector err self q) e1) h in
      elim (Bool-cases (ltb s.connector.handed c.handed)) [
        | inl p ↦ subst (Written decimal ip_port name) (some_inj (simp p at e2)) (
            inl (
              omega arith,
              (
                ap (λ l. made decimal ip_port name s ∷ l) (o ∙ ap own n),
                handle_write-hands s.connector c err self e1 (ltb→lt _ _ p),
              ),
            ))
        | inr p ↦
            subst (Written decimal ip_port name) (some_inj (simp p at e2))
              (inr (refl, (o, subst (λ m. Settled m c.state) (sym n) tt)))
      ]

-- The one live connection is the client's.
only :
    (o : Option Connection) (newer older : List Connection) (c : Connection)
    → newer ++ (c ∷ older) ≡ own o
    → (o ≡ some c) × (newer ≡ []) × (older ≡ [])
only none [] older c e = absurd (ground (arith, e))
only none (x ∷ newer) older c e = absurd (ground (arith, e))
only (some d) [] [] c e = (cc, refl, refl)
only (some d) [] (y ∷ older) c e = absurd (ground (arith, e))
only (some d) (x ∷ []) older c e = absurd (ground (arith, e))
only (some d) (x ∷ y ∷ newer) older c e = absurd (ground (arith, e))

remove_connection-Keeps :
    (newer older : List Connection) (s t : TcpClient) (c : Connection) (a : Answer)
    → Keeps (newer ++ (c ∷ older)) s
    → remove_connection s c a ≡ some t
    → Keeps (newer ++ older) t
unfolding remove_connection
remove_connection-Keeps newer older s t c a (o, h) e =
    let (q, n1, n2) = only s.connection newer older c o in
    let (g, e1) = guard-some (is_same s.connection c) _ t e in
    let k : Keeps [] (post (record s { connection = none }) (destroys c)) = (refl, tt) in
    subst (λ l. Keeps l t) (sym (ap (λ l. l ++ older) n1 ∙ n2))
      (elim (Bool-cases (s.retry && s.connects)) [
        | inl p ↦
            let (d, f1, f2) = bind_some (Connector.restart s.connector a) _ t (simp p at e1) in
            subst (λ t. Keeps [] t) (some_inj f2) (refl, tt)
        | inr p ↦ subst (λ t. Keeps [] t) (some_inj (simp p at e1)) k
      ])

module _ (decimal : ℕ → List ℕ) (ip_port name : List ℕ) where
  Reaches-Keeps :
      (live : List Connection) (s : TcpClient) → Reaches decimal ip_port name live s → Keeps live s
  unfolding disconnect stop Connector.stop
  Reaches-Keeps _ _ begins = (refl, tt)
  Reaches-Keeps live _ (enables r) = Reaches-Keeps live _ r
  Reaches-Keeps live t (connects_to {s = s} a r e) =
      connect-Keeps live s t a (Reaches-Keeps live s r) e
  Reaches-Keeps live _ (disconnects {s = s} r) =
      shut_down-Keeps live (record s { connects = false }) s.connection (Reaches-Keeps live s r)
  Reaches-Keeps live _ (stops_at {s = s} r) = Reaches-Keeps live s r
  Reaches-Keeps live _ (handles {s = s} {c = c} e r k) =
      on_event-Keeps live s c e (Reaches-Keeps live s r) k
  Reaches-Keeps _ t (hands_over {live = live} {s = s} err self r e l) =
      elim (on_write-Keeps live s decimal ip_port name err self t (Reaches-Keeps live s r) e) [
        | inl w ↦ w.1
        | inr w ↦ absurd (omega (arith, w.0, l))
      ]
  Reaches-Keeps live t (fails_to {s = s} err self r e l) =
      elim (on_write-Keeps live s decimal ip_port name err self t (Reaches-Keeps live s r) e) [
        | inl w ↦ absurd (omega (arith, w.0, l))
        | inr w ↦ w.1
      ]
  Reaches-Keeps _ t (closes {s = s} older newer c a r e) =
      remove_connection-Keeps newer older s t c a (Reaches-Keeps (newer ++ (c ∷ older)) s r) e

  -- In any order of what the user, the loop and the connections do, a connection that was made and
  -- has not closed is the one the client has, and no other is: the assert of `removeConnection`
  -- holds, and without a reconnection the connection is given up.
  pub Reaches-one :
      (newer older : List Connection) (s : TcpClient) (c : Connection) (a : Answer)
      → Reaches decimal ip_port name (newer ++ (c ∷ older)) s
      → (s.connection ≡ some c)
        × (newer ≡ [])
        × (older ≡ [])
        × (remove_connection s c a ≡ (
            let t = post (record s { connection = none }) (destroys c) in
            if s.retry && s.connects
            then (Connector.restart s.connector a >>= λ k. some (record t { connector = k }))
            else some t))
  unfolding remove_connection
  Reaches-one newer older s c a r =
      let (o, h) = Reaches-Keeps (newer ++ (c ∷ older)) s r in
      let (q, n1, n2) = only s.connection newer older c o in (q, n1, n2, rw (q, ==_refl c.id) refl)

  -- A client that disconnects and asks for a new connection when the old one is gone stops at the
  -- connector's assert: nothing puts the connector back into its first state.
  pub connect-disconnect :
      (s : TcpClient) (c : Connection) (a b : Answer)
      → Reaches decimal ip_port name (c ∷ []) s
      → (t : TcpClient) × (remove_connection (disconnect s) c a ≡ some t)
        × (t.connection ≡ none)
        × (connect t b ≡ none)
  unfolding remove_connection disconnect connect
  connect-disconnect s c a b r =
      let (o, h) = Reaches-Keeps (c ∷ []) s r in
      let (q, n1, n2) = only s.connection [] [] c o in
      let k : s.connector.state ≡ connected = subst (λ m. Settled m s.connector.state) q h in
      let d = post (record s { connects = false }) (shuts c) in
      (
        post (record d { connection = none }) (destroys c),
        rw (q, ==_refl c.id) (elim (Bool-cases s.retry) [ inl p ↦ rw p refl | inr p ↦ rw p refl ]),
        refl,
        rw (start-connected s.connector b k) refl,
      )
