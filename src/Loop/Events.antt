-- ===== src/Loop/Events.antt =====
-- pallette/Channel.cpp, handleEvent and handleEventWithGuard: which callbacks run, in order. The
-- bits of `revents_` are flags; whether the callbacks are set, whether the channel is tied, and
-- whether the object that it is tied to still lives are arguments.
use pallette.Base.{arith, ◌≡◌, refl, Bool, true, false, not, ◌&&◌, ◌||◌, List, [], ◌∷◌, ◌++◌}
use pallette.Base.{ℕ}
use pallette.Base.Tests.{if◌then◌else◌}
use pallette.Base.Text.{codes}

pub record Revents : Type 0 where
  pub epollhup : Bool
  pub epollin : Bool
  pub epollpri : Bool
  pub epollerr : Bool
  pub epollout : Bool

pub data Callback : Type 0 where
  close_callback error_callback read_callback write_callback : Callback

abbrev call : Bool → (Callback → Bool) → Callback → List Callback
call b has k = if b && has k then k ∷ [] else []

abbrev pub handle_event_with_guard : Revents → (Callback → Bool) → List Callback
handle_event_with_guard r has =
    call (r.epollhup && not r.epollin) has close_callback
    ++ (call r.epollerr has error_callback
        ++ (call (r.epollin || (r.epollpri || r.epollhup)) has read_callback
            ++ call r.epollout has write_callback))

pub handle_event : (tied lives : Bool) → Revents → (Callback → Bool) → List Callback
handle_event true true r has = handle_event_with_guard r has
handle_event true false r has = []
handle_event false lives r has = handle_event_with_guard r has

-- `eventsToString`, with what `ostringstream` prints of the descriptor.
abbrev name_if : Bool → List ℕ → List ℕ
name_if true name = name
name_if false name = []

unfoldable events_to_string : (fd_text : List ℕ) → Revents → List ℕ
events_to_string fd_text r =
    fd_text
    ++ codes ": "
    ++ name_if r.epollin (codes "EPOLLIN ")
    ++ name_if r.epollout (codes "EPOLLOUT ")
    ++ name_if r.epollpri (codes "EPOLLPRI ")
    ++ name_if r.epollerr (codes "EPOLLERR ")
    ++ name_if r.epollhup (codes "EPOLLHUP ")

in_and_hup :
    events_to_string (codes "7") (record {
      epollhup = true;
      epollin = true;
      epollpri = false;
      epollerr = false;
      epollout = false;
    })
    ≡ codes "7: EPOLLIN EPOLLHUP "
unfolding events_to_string
in_and_hup = refl

-- What a callback waits for.
abbrev pub wants : Revents → Callback → Bool
wants r close_callback = r.epollhup && not r.epollin
wants r error_callback = r.epollerr
wants r read_callback = r.epollin || (r.epollpri || r.epollhup)
wants r write_callback = r.epollout

abbrev pub runs : Callback → List Callback → Bool
runs k [] = false
runs close_callback (close_callback ∷ ks) = true
runs error_callback (error_callback ∷ ks) = true
runs read_callback (read_callback ∷ ks) = true
runs write_callback (write_callback ∷ ks) = true
runs k (_ ∷ ks) = runs k ks

-- Whether each callback is in the list of those that may run.
four :
    (a b c d : Bool)
    → (let ks =
          (if a then close_callback ∷ [] else [])
          ++ ((if b then error_callback ∷ [] else [])
              ++ ((if c then read_callback ∷ [] else [])
                  ++ (if d then write_callback ∷ [] else []))) in
        (runs close_callback ks ≡ a)
        × (runs error_callback ks ≡ b)
        × (runs read_callback ks ≡ c)
        × (runs write_callback ks ≡ d))
four a b c d = ground arith

guard_lem :
    (r : Revents) (has : Callback → Bool) (k : Callback)
    → runs k (handle_event_with_guard r has) ≡ wants r k && has k
guard_lem r has close_callback = (four _ _ _ _).0
guard_lem r has error_callback = (four _ _ _ _).1
guard_lem r has read_callback = (four _ _ _ _).2
guard_lem r has write_callback = (four _ _ _ _).3

-- A callback of a channel runs exactly if its bits were returned and it is set, and the object that
-- the channel is tied to, if any, still lives: the close callback on EPOLLHUP without EPOLLIN, the
-- error callback on EPOLLERR, the read callback on EPOLLIN, EPOLLPRI or EPOLLHUP, the write
-- callback on EPOLLOUT.
pub handle_event-runs :
    (tied lives : Bool) (r : Revents) (has : Callback → Bool) (k : Callback)
    → runs k (handle_event tied lives r has) ≡ (not tied || lives) && (wants r k && has k)
unfolding handle_event
handle_event-runs true true r has k = guard_lem r has k
handle_event-runs true false r has k = refl
handle_event-runs false lives r has k = guard_lem r has k
