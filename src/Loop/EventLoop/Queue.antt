-- ===== src/Loop/EventLoop/Queue.antt =====
-- What is queued is called once and in order, and the poller does not wait while there is work.
use pallette.Base.{ℕ, ◌+◌, ◌<◌, ◌≡◌, ◌⊎◌, refl, true, inl, inr, List, [], ◌∷◌, ◌++◌}
use pallette.Loop.EventLoop.Wakeups.{Woken, IsSound-at}
use pallette.Loop.EventLoop.Sound.{Reaches-IsSound}
use pallette.Loop.EventLoop.{polling, EventLoop, Reaches}

-- Whatever order the steps of the threads take: the functors that were called, those of the current
-- round that were not called yet, and those that are pending are, one behind the other, the functors
-- that were queued, in order. So none is lost, called twice or called before an earlier one.
pub Reaches-order :
    (q : List ℕ) (o : ℕ) (l : EventLoop)
    → Reaches q o l
    → l.called ++ (l.functors ++ l.pending_functors) ≡ q
Reaches-order q o l r = (Reaches-IsSound q o l r).order

-- Whatever order the steps of the threads take, where the loop's own thread queues and quits from
-- callbacks: when the loop is in the poller and functors are pending, or it was told to quit, then a
-- write to the descriptor it polls is unread, or another thread is about to write one.
pub Reaches-woken :
    (q : List ℕ) (o : ℕ) (l : EventLoop)
    → Reaches q o l
    → l.phase ≡ polling
    → ((l.pending_functors ≡ []) → ⊥) ⊎ (l.quitting ≡ true)
    → 0 < l.unread + o
Reaches-woken q o l r e w =
    let (c, fs, k, t) = IsSound-at q o l polling e (Reaches-IsSound q o l r) in
    elim w [ inl some' ↦ pending l.pending_functors k some' | inr told ↦ t told ]
  where
    pending : (ps : List ℕ) → Woken ps (l.unread + o) → ((ps ≡ []) → ⊥) → 0 < l.unread + o
    pending [] k h = absurd (h refl)
    pending (p ∷ ps) k h = k
