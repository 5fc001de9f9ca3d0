-- ===== src/Tcp/Acceptor.antt =====
-- pallette/Acceptor.cpp. What the kernel answers is an argument; a descriptor is its number, `none`
-- is -1, which `close` refuses. The descriptors obtained, closed and handed to the callback are
-- recorded. `none` as a result is a failed assert.
pub mod Balance
mod Tests
use pallette.Base.{ℕ, Bool, true, false, List, [], ◌∷◌, ◌++◌, Option, none, some}
use pallette.Base.Tests.{if◌then◌else◌}

pub record Acceptor : Type 0 where
  pub listenning : Bool
  pub reading : Bool
  pub in_poller : Bool
  pub new_connection_callback : Bool
  pub idle_fd : Option ℕ
  pub obtained : List ℕ
  pub closed : List ℕ
  pub handed : List ℕ

-- What `sockets::accept` answers where it returns; with EMFILE, what `accept` and `open` answer after
-- it. On an error that is not expected `sockets::accept` ends the program, and the acceptor with it.
pub data Accept : Type 0 where
  accepted : ℕ → Accept
  too_many : (again : Option ℕ) → (reopened : Option ℕ) → Accept
  refused : Accept

abbrev pub as_list : Option ℕ → List ℕ
as_list none = []
as_list (some fd) = fd ∷ []

-- `idle` is what `open` answers.
abbrev pub new : (idle : Option ℕ) → Option Acceptor
new none = none
new (some fd) = some (record {
  listenning = false;
  reading = false;
  in_poller = false;
  new_connection_callback = false;
  idle_fd = some fd;
  obtained = fd ∷ [];
  closed = [];
  handed = [];
})

abbrev pub set_new_connection_callback : Acceptor → (callback : Bool) → Acceptor
set_new_connection_callback s callback = record s { new_connection_callback = callback }

unfoldable pub close : Acceptor → Option ℕ → Acceptor
close s fd = record s { closed = s.closed ++ as_list fd }

unfoldable pub listen : Acceptor → Acceptor
listen s = record s { listenning = true; reading = true; in_poller = true }

-- `idleFd_` is what the kernel answers next.
unfoldable pub reserve : Acceptor → Option ℕ → Acceptor
reserve s fd = record s { idle_fd = fd; obtained = s.obtained ++ as_list fd }

unfoldable pub hand_over : Acceptor → ℕ → Acceptor
hand_over s fd =
    let t = record s { obtained = s.obtained ++ (fd ∷ []) } in
    if s.new_connection_callback
    then record t { handed = s.handed ++ (fd ∷ []) }
    else close t (some fd)

unfoldable pub handle_read : Acceptor → Accept → Acceptor
handle_read s (accepted fd) = hand_over s fd
handle_read s (too_many again reopened) =
    let s1 = close s s.idle_fd in
    let s2 = reserve s1 again in let s3 = close s2 s2.idle_fd in reserve s3 reopened
handle_read s refused = s

unfoldable pub destroy : Acceptor → Acceptor
destroy s = close (record s { reading = false; in_poller = false }) s.idle_fd

unfoldable pub handle_reads : Acceptor → List Accept → Acceptor
handle_reads s [] = s
handle_reads s (a ∷ answers) = handle_reads (handle_read s a) answers
