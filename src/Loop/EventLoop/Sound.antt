-- ===== src/Loop/EventLoop/Sound.antt =====
-- Every step of the threads keeps the queue in order and the loop awake.
use pallette.Base.{
  ℕ, zero, suc, ◌+◌, ◌≡◌, refl, sym, ap, ◌∙◌, subst, Bool, false, inl, inr, List, [], ◌∷◌, ◌++◌,
  some, arith, append_assoc, append-nil,
}
use pallette.Base.Tests.{if◌then◌else◌, Bool-cases, some_inj}
use pallette.Loop.EventLoop.{
  outside, testing, polling, handling, calling, EventLoop, handle_read, begin_loop, test_quit,
  begin_handling, begin_calling, call_first, call_next, end_if_none, end_calling, Reaches, start,
  pushes, sets_quit, wakes, queues, quits, begins, tests, polls, reads, swaps, calls, ends,
}
use pallette.Loop.EventLoop.Wakeups.{
  Kept, IsSound, new-IsSound, push-IsSound, set_quit-IsSound, wakeup-IsSound, queue-IsSound,
  quit-IsSound, IsSound-at,
}

begin_loop-IsSound :
    (q : List ℕ) (o : ℕ) (l m : EventLoop)
    → l.phase ≡ outside
    → begin_loop l ≡ some m
    → IsSound q o l
    → IsSound q o m
unfolding begin_loop
begin_loop-IsSound q o l m e b h = elim (Bool-cases l.looping) [
  | inl yes' ↦ absurd (ground (arith, simp yes' at b))
  | inr no' ↦
      subst (IsSound q o) (some_inj (simp no' at b))
        (record { order = h.order; kept = IsSound-at q o l outside e h })
]

test_quit-IsSound :
    (q : List ℕ) (o : ℕ) (l : EventLoop)
    → l.phase ≡ testing
    → IsSound q o l
    → IsSound q o (test_quit l)
test_quit-IsSound q o l e h =
    let (c, fs, w) = IsSound-at q o l testing e h in
    elim (Bool-cases l.quitting) [
      | inl yes' ↦
          subst (λ b. IsSound q o (tested b)) (sym yes')
            (record { order = h.order; kept = (c, fs, w) })
      | inr no' ↦
          subst (λ b. IsSound q o (tested b)) (sym no')
            (record {
              order = h.order;
              kept = (c, fs, w, λ y. absurd (ground (arith, sym y ∙ no')));
            })
    ]
  where
    tested : Bool → EventLoop
    tested b =
        if b then record l { looping = false; phase = outside } else record l { phase = polling }

begin_handling-IsSound :
    (q : List ℕ) (o : ℕ) (l : EventLoop)
    → l.phase ≡ polling
    → IsSound q o l
    → IsSound q o (begin_handling l)
begin_handling-IsSound q o l e h =
    let (c, fs, w, t) = IsSound-at q o l polling e h in record { order = h.order; kept = (c, fs) }

handle_read-IsSound :
    (q : List ℕ) (o : ℕ) (l : EventLoop)
    → l.phase ≡ handling
    → IsSound q o l
    → IsSound q o (handle_read l)
handle_read-IsSound q o l e h = record {
  order = h.order;
  kept =
      subst
        (λ p. Kept p l.calling_pending_functors l.functors l.pending_functors l.quitting (0 + o))
        (sym e) (IsSound-at q o l handling e h);
}

begin_calling-IsSound :
    (q : List ℕ) (o : ℕ) (l : EventLoop)
    → l.phase ≡ handling
    → IsSound q o l
    → IsSound q o (begin_calling l)
begin_calling-IsSound q o l e h =
    let (c, fs) = IsSound-at q o l handling e h in
    record {
      order =
          ap (λ t. l.called ++ t)
            (append-nil l.pending_functors ∙ ap (λ t. t ++ l.pending_functors) (sym fs))
          ∙ h.order;
      kept = (refl, tt);
    }

call_next-IsSound :
    (q : List ℕ) (o : ℕ) (l m : EventLoop) (f : ℕ)
    → l.phase ≡ calling
    → call_next l ≡ some (f, m)
    → IsSound q o l
    → IsSound q o m
call_next-IsSound q o l m f e c h = rest l.functors c h.order
  where
    rest :
        (fs : List ℕ)
        → call_first l fs ≡ some (f, m)
        → l.called ++ (fs ++ l.pending_functors) ≡ q
        → IsSound q o m
    rest [] c' r = absurd (ground (arith, c'))
    rest (g ∷ gs) c' r = subst (IsSound q o) (ap (λ x. x.1) (some_inj c')) (record {
      order = append_assoc l.called (g ∷ []) (gs ++ l.pending_functors) ∙ r;
      kept =
          subst
            (λ p. Kept p l.calling_pending_functors gs l.pending_functors l.quitting (l.unread + o))
            (sym e) (IsSound-at q o l calling e h);
    })

end_calling-IsSound :
    (q : List ℕ) (o : ℕ) (l m : EventLoop)
    → l.phase ≡ calling
    → end_calling l ≡ some m
    → IsSound q o l
    → IsSound q o m
end_calling-IsSound q o l m e c h = rest l.functors refl c
  where
    rest : (fs : List ℕ) → l.functors ≡ fs → end_if_none l fs ≡ some m → IsSound q o m
    rest (g ∷ gs) r c' = absurd (ground (arith, c'))
    rest [] r c' =
        subst (IsSound q o) (some_inj c')
          (record { order = h.order; kept = (refl, r, (IsSound-at q o l calling e h).1) })

pub Reaches-IsSound : (q : List ℕ) (o : ℕ) (l : EventLoop) → Reaches q o l → IsSound q o l
Reaches-IsSound [] zero l start = new-IsSound
Reaches-IsSound q o l (pushes {q = q'} {o = o'} {l = k} f r) =
    push-IsSound q' o' k (Reaches-IsSound q' o' k r) f
Reaches-IsSound q o l (sets_quit {o = o'} {l = k} r) =
    set_quit-IsSound q o' k (Reaches-IsSound q o' k r)
Reaches-IsSound q o l (wakes {l = k} r) = wakeup-IsSound q o k (Reaches-IsSound q (suc o) k r)
Reaches-IsSound q o l (queues {q = q'} {l = k} f r i) =
    queue-IsSound q' o k f i (Reaches-IsSound q' o k r)
Reaches-IsSound q o l (quits {l = k} r i) = quit-IsSound q o k i (Reaches-IsSound q o k r)
Reaches-IsSound q o l (begins {l = k} r e b) =
    begin_loop-IsSound q o k l e b (Reaches-IsSound q o k r)
Reaches-IsSound q o l (tests {l = k} r e) = test_quit-IsSound q o k e (Reaches-IsSound q o k r)
Reaches-IsSound q o l (polls {l = k} r e) = begin_handling-IsSound q o k e (Reaches-IsSound q o k r)
Reaches-IsSound q o l (reads {l = k} r e) = handle_read-IsSound q o k e (Reaches-IsSound q o k r)
Reaches-IsSound q o l (swaps {l = k} r e) = begin_calling-IsSound q o k e (Reaches-IsSound q o k r)
Reaches-IsSound q o l (calls {l = k} {f = f} r e c) =
    call_next-IsSound q o k l f e c (Reaches-IsSound q o k r)
Reaches-IsSound q o l (ends {l = k} r e c) =
    end_calling-IsSound q o k l e c (Reaches-IsSound q o k r)
