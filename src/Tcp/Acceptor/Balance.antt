-- ===== src/Tcp/Acceptor/Balance.antt =====
-- An acceptor gives back every descriptor that it does not hand over.
use pallette.Base.{ℕ, ◌+◌, ◌≡◌, subst, Bool, inl, inr, List, [], ◌∷◌, Option, some, arith}
use pallette.Base.Tests.{some_inj, Bool-cases}
use pallette.Base.Count.{count, count-append}
use pallette.Tcp.Acceptor.{
  Acceptor, Accept, accepted, too_many, refused, as_list, new, set_new_connection_callback, close,
  listen, reserve, hand_over, handle_read, destroy, handle_reads,
}

-- Each descriptor that was obtained is closed, handed over, or kept for later.
abbrev IsBalanced : ℕ → Acceptor → Type 0
IsBalanced fd s =
    count fd s.obtained ≡ count fd s.closed + count fd s.handed + count fd (as_list s.idle_fd)

module _ (fd : ℕ) where
  hand_over-IsBalanced : (s : Acceptor) (x : ℕ) → IsBalanced fd s → IsBalanced fd (hand_over s x)
  unfolding hand_over close
  hand_over-IsBalanced s x h = elim (Bool-cases s.new_connection_callback) [
    | inl p ↦
        rw p
          (omega (arith, h, count-append fd s.obtained (x ∷ []), count-append fd s.handed (x ∷ [])))
    | inr p ↦
        rw p
          (omega (arith, h, count-append fd s.obtained (x ∷ []), count-append fd s.closed (x ∷ [])))
  ]

  -- The reserve is closed and taken anew.
  swap-IsBalanced :
      (s : Acceptor) (again : Option ℕ)
      → IsBalanced fd s
      → IsBalanced fd (reserve (close s s.idle_fd) again)
  unfolding reserve close
  swap-IsBalanced s again h = omega (
    arith,
    h,
    count-append fd s.obtained (as_list again),
    count-append fd s.closed (as_list s.idle_fd),
  )

  handle_reads-IsBalanced :
      (answers : List Accept) (s : Acceptor)
      → IsBalanced fd s
      → IsBalanced fd (handle_reads s answers)
  unfolding handle_reads handle_read
  handle_reads-IsBalanced [] s h = h
  handle_reads-IsBalanced (accepted x ∷ answers) s h =
      handle_reads-IsBalanced answers (hand_over s x) (hand_over-IsBalanced s x h)
  handle_reads-IsBalanced (too_many again reopened ∷ answers) s h =
      handle_reads-IsBalanced answers _
        (swap-IsBalanced (reserve (close s s.idle_fd) again) reopened (swap-IsBalanced s again h))
  handle_reads-IsBalanced (refused ∷ answers) s h = handle_reads-IsBalanced answers s h

-- With a callback or none, and whatever the kernel answers, also where it has no descriptor left, an acceptor that listened and
-- was destroyed has closed every descriptor that it obtained and did not hand over, as often as it
-- obtained it.
pub destroy-handle_reads :
    (fd idle : ℕ) (callback : Bool) (s : Acceptor) (answers : List Accept)
    → new (some idle) ≡ some s
    → (let t = destroy (handle_reads (listen (set_new_connection_callback s callback)) answers) in
        count fd t.obtained ≡ count fd t.closed + count fd t.handed)
unfolding destroy close listen count
destroy-handle_reads fd idle callback s answers e =
    let s0 = listen (set_new_connection_callback s callback) in
    let t = handle_reads s0 answers in
    let h : IsBalanced fd s0 =
      subst (λ s. IsBalanced fd (listen (set_new_connection_callback s callback))) (some_inj e)
        (omega arith) in
    omega
      (arith, handle_reads-IsBalanced fd answers s0 h, count-append fd t.closed (as_list t.idle_fd))
