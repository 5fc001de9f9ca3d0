-- ===== src/Loop/EventLoop/Wakeups.antt =====
-- A wakeup is on its way for what was queued; what queues and quits keeps it so.
use pallette.Base.{
  ℕ, suc, ◌+◌, ◌<◌, ◌≡◌, refl, sym, ap, ◌∙◌, subst, Bool, true, false, inl, inr, List, [], ◌∷◌,
  ◌++◌, arith, append_assoc,
}
use pallette.Base.Tests.{if◌then◌else◌, Bool-cases}
use pallette.Loop.EventLoop.{
  Phase, outside, testing, polling, handling, calling, EventLoop, new, wakeup, push, queue_in_loop,
  set_quit, quit, in_callback,
}

-- What is pending waits for no poll: of the wakeups, `n` are on their way or unread.
abbrev pub Woken : List ℕ → ℕ → Type 0
Woken [] n = Unit
Woken (f ∷ fs) n = 0 < n

abbrev pub Kept : Phase → Bool → List ℕ → List ℕ → Bool → ℕ → Type 0
Kept outside c fs ps q n = (c ≡ false) × (fs ≡ []) × Woken ps n
Kept testing c fs ps q n = (c ≡ false) × (fs ≡ []) × Woken ps n
Kept polling c fs ps q n = (c ≡ false) × (fs ≡ []) × Woken ps n × (q ≡ true → 0 < n)
Kept handling c fs ps q n = (c ≡ false) × (fs ≡ [])
Kept calling c fs ps q n = (c ≡ true) × Woken ps n

Woken-positive : (ps : List ℕ) (n : ℕ) → 0 < n → Woken ps n
Woken-positive [] n h = tt
Woken-positive (f ∷ fs) n h = h

-- A wakeup that is on its way answers for all.
Kept-positive :
    (p : Phase) (c : Bool) (fs ps ps' : List ℕ) (q q' : Bool) (n m : ℕ)
    → 0 < m
    → Kept p c fs ps q n
    → Kept p c fs ps' q' m
Kept-positive outside c fs ps ps' q q' n m h k = (k.0, k.1, Woken-positive ps' m h)
Kept-positive testing c fs ps ps' q q' n m h k = (k.0, k.1, Woken-positive ps' m h)
Kept-positive polling c fs ps ps' q q' n m h k = (k.0, k.1, Woken-positive ps' m h, λ e. h)
Kept-positive handling c fs ps ps' q q' n m h k = k
Kept-positive calling c fs ps ps' q q' n m h k = (k.0, Woken-positive ps' m h)

abbrev KeptBy : EventLoop → ℕ → Type 0
KeptBy l n = Kept l.phase l.calling_pending_functors l.functors l.pending_functors l.quitting n

pub record IsSound (q : List ℕ) (o : ℕ) (l : EventLoop) : Type 0 where
  pub order : l.called ++ (l.functors ++ l.pending_functors) ≡ q
  pub kept : KeptBy l (l.unread + o)

pub new-IsSound : IsSound [] 0 new
new-IsSound = record { order = refl; kept = (refl, refl, tt) }

push_order :
    (a b c q : List ℕ) (f : ℕ) → a ++ (b ++ c) ≡ q → a ++ (b ++ (c ++ (f ∷ []))) ≡ q ++ (f ∷ [])
push_order a b c q f e =
    ap (λ t. a ++ t) (sym (append_assoc b c (f ∷ [])))
    ∙ sym (append_assoc a (b ++ c) (f ∷ []))
    ∙ ap (λ t. t ++ (f ∷ [])) e

module _ (q : List ℕ) (o : ℕ) (l : EventLoop) (h : IsSound q o l) where
  -- Another thread queues or quits and is about to wake the loop, or the loop is woken.
  positive :
      (ps : List ℕ) (r : Bool) (m : ℕ)
      → 0 < m
      → Kept l.phase l.calling_pending_functors l.functors ps r m
  positive ps r m p =
      Kept-positive l.phase l.calling_pending_functors l.functors l.pending_functors ps l.quitting r
        _ m p h.kept

  pub push-IsSound : (f : ℕ) → IsSound (q ++ (f ∷ [])) (suc o) (push l f)
  push-IsSound f = record {
    order = push_order l.called l.functors l.pending_functors q f h.order;
    kept = positive (l.pending_functors ++ (f ∷ [])) l.quitting _ (omega arith);
  }

  pub set_quit-IsSound : IsSound q (suc o) (set_quit l)
  set_quit-IsSound = record {
    order = h.order;
    kept = positive l.pending_functors l.looping _ (omega arith);
  }

  queue_woken-IsSound : (f : ℕ) → IsSound (q ++ (f ∷ [])) o (wakeup (push l f))
  queue_woken-IsSound f = record {
    order = push_order l.called l.functors l.pending_functors q f h.order;
    kept = positive (l.pending_functors ++ (f ∷ [])) l.quitting _ (omega arith);
  }

pub wakeup-IsSound :
    (q : List ℕ) (o : ℕ) (l : EventLoop) → IsSound q (suc o) l → IsSound q o (wakeup l)
wakeup-IsSound q o l h = record {
  order = h.order;
  kept = positive q (suc o) l h l.pending_functors l.quitting _ (omega arith);
}

-- The loop's own thread queues or quits, or goes on: by the place where it is.
Kept-unwoken :
    (p : Phase) (c : Bool) (fs ps ps' : List ℕ) (q : Bool) (n m : ℕ)
    → in_callback p ≡ true
    → c ≡ false
    → Kept p c fs ps q n
    → Kept p c fs ps' q m
Kept-unwoken handling c fs ps ps' q n m i e k = k
Kept-unwoken calling c fs ps ps' q n m i e k = absurd (ground (arith, sym e ∙ k.0))
Kept-unwoken outside c fs ps ps' q n m i e k = absurd (ground (arith, i))
Kept-unwoken testing c fs ps ps' q n m i e k = absurd (ground (arith, i))
Kept-unwoken polling c fs ps ps' q n m i e k = absurd (ground (arith, i))

pub queue-IsSound :
    (q : List ℕ) (o : ℕ) (l : EventLoop) (f : ℕ)
    → in_callback l.phase ≡ true
    → IsSound q o l
    → IsSound (q ++ (f ∷ [])) o (queue_in_loop true l f)
unfolding queue_in_loop
queue-IsSound q o l f i h = elim (Bool-cases l.calling_pending_functors) [
  | inl yes' ↦
      subst (λ b. IsSound (q ++ (f ∷ [])) o (if b then wakeup (push l f) else push l f)) (sym yes')
        (queue_woken-IsSound q o l h f)
  | inr no' ↦
      subst (λ b. IsSound (q ++ (f ∷ [])) o (if b then wakeup (push l f) else push l f)) (sym no')
        (record {
          order = push_order l.called l.functors l.pending_functors q f h.order;
          kept =
              Kept-unwoken l.phase l.calling_pending_functors l.functors l.pending_functors _
                l.quitting _ _ i no' h.kept;
        })
]

Kept-quit :
    (p : Phase) (c : Bool) (fs ps : List ℕ) (q q' : Bool) (n : ℕ)
    → in_callback p ≡ true
    → Kept p c fs ps q n
    → Kept p c fs ps q' n
Kept-quit handling c fs ps q q' n i k = k
Kept-quit calling c fs ps q q' n i k = k
Kept-quit outside c fs ps q q' n i k = absurd (ground (arith, i))
Kept-quit testing c fs ps q q' n i k = absurd (ground (arith, i))
Kept-quit polling c fs ps q q' n i k = absurd (ground (arith, i))

pub quit-IsSound :
    (q : List ℕ) (o : ℕ) (l : EventLoop)
    → in_callback l.phase ≡ true
    → IsSound q o l
    → IsSound q o (quit true l)
unfolding quit
quit-IsSound q o l i h = record {
  order = h.order;
  kept =
      Kept-quit l.phase l.calling_pending_functors l.functors l.pending_functors l.quitting
        l.looping _ i h.kept;
}

-- What is kept, where the loop's thread is known to be.
pub IsSound-at :
    (q : List ℕ) (o : ℕ) (l : EventLoop) (p : Phase)
    → l.phase ≡ p
    → IsSound q o l
    → Kept p l.calling_pending_functors l.functors l.pending_functors l.quitting (l.unread + o)
IsSound-at q o l p e h =
    subst
      (λ p.
        Kept p l.calling_pending_functors l.functors l.pending_functors l.quitting (l.unread + o))
      e h.kept
