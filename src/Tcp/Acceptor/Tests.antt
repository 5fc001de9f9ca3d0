-- ===== src/Tcp/Acceptor/Tests.antt =====
-- Two connections, the second when no descriptor is left.
use pallette.Base.{false, ◌+◌, ◌≡◌, refl, true, List, [], ◌∷◌, some}
use pallette.Base.Count.{count}
use pallette.Tcp.Acceptor.{
  Accept, accepted, too_many, set_new_connection_callback, Acceptor, destroy, handle_reads, listen,
}
use pallette.Tcp.Acceptor.Balance.{destroy-handle_reads}

abbrev opened : Acceptor
opened = record {
  listenning = false;
  reading = false;
  in_poller = false;
  new_connection_callback = false;
  idle_fd = some 5;
  obtained = 5 ∷ [];
  closed = [];
  handed = [];
}

abbrev answers : List Accept
answers = accepted 7 ∷ too_many (some 5) (some 5) ∷ []

destroy-handle_reads_example :
    count 5
      (destroy (handle_reads (listen (set_new_connection_callback opened true)) answers)).obtained
    ≡ count 5
        (destroy (handle_reads (listen (set_new_connection_callback opened true)) answers)).closed
      + count 5
          (destroy (handle_reads (listen (set_new_connection_callback opened true)) answers)).handed
destroy-handle_reads_example = destroy-handle_reads 5 5 true opened answers refl
