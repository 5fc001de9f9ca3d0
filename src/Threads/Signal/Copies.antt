-- ===== src/Threads/Signal/Copies.antt =====
-- Copying before writing gives each call the slots of the moment at which it began.
use pallette.Base.{
  ℕ, zero, suc, ◌<◌, ◌≡◌, refl, sym, ap, subst, Bool, false, not, ◌&&◌, inl, inr, List, [], ◌∷◌,
  ◌++◌, arith, none, some,
}
use pallette.Base.Tests.{◌==◌, Bool-cases, ==_refl}
use pallette.Base.Lists.{drop, get_elem?}
use pallette.Threads.Signal.{
  Call, SignalImpl, put, holds, copy_on_write, set_list, kept, clean, add, connect, expire,
  begin_call, advance, end_call, at_call, without_at, visit, visited,
}
use pallette.Threads.Signal.Plain.{
  Plan, is_in, remaining, come_to, go_on, goes_on, without_plan, Reaches, begins, connects, expires,
  cleans, calls_all, visits, returns,
}

-- Each call has what is to come in its list, from where it is, and ran what it is said to have run.
abbrev pub Goes : (ℕ → List ℕ) → (made : ℕ) → List Call → List Plan → Type 0
Goes lists made [] [] = Unit
Goes lists made [] (p ∷ ps) = ⊥
Goes lists made (c ∷ cs) [] = ⊥
Goes lists made (c ∷ cs) (p ∷ ps) =
    ((drop c.next (lists c.list) ≡ p.to_come) × (c.ran ≡ p.has_run))
    × (c.list < made)
    × Goes lists made cs ps

-- A list that no call goes through is written.
Goes-put :
    (lists : ℕ → List ℕ) (made l : ℕ) (v : List ℕ) (cs : List Call) (ps : List Plan)
    → holds l cs ≡ false
    → Goes lists made cs ps
    → Goes (put l v lists) made cs ps
unfolding holds put
Goes-put lists made l v [] [] n g = tt
Goes-put lists made l v [] (p ∷ ps) n g = absurd g
Goes-put lists made l v (c ∷ cs) [] n g = absurd g
Goes-put lists made l v (c ∷ cs) (p ∷ ps) n (e, h, g) =
    let m : (c.list == l) ≡ false = ground (arith, n) in
    (rw m e, h, Goes-put lists made l v cs ps (ground (arith, n)) g)

-- A list is made that no call has seen.
Goes-new :
    (lists : ℕ → List ℕ) (made : ℕ) (v : List ℕ) (cs : List Call) (ps : List Plan)
    → Goes lists made cs ps
    → Goes (put made v lists) (suc made) cs ps × (holds made cs ≡ false)
unfolding holds put
Goes-new lists made v [] [] g = (tt, refl)
Goes-new lists made v [] (p ∷ ps) g = absurd g
Goes-new lists made v (c ∷ cs) [] g = absurd g
Goes-new lists made v (c ∷ cs) (p ∷ ps) (e, h, g) =
    let m : (c.list == made) ≡ false = ground (arith, h) in
    let (g', k) = Goes-new lists made v cs ps g in ((rw m e, omega (arith, h), g'), rw (m, k) refl)

-- The list of the signal holds the slots that are connected.
abbrev Good : SignalImpl → List ℕ → List Plan → Type 0
Good s xs ps = (s.lists s.slots ≡ xs) × (s.slots < s.made) × Goes s.lists s.made s.calls ps

-- After the copy, no call holds the list of the signal.
copy_on_write-Good :
    (s : SignalImpl) (xs : List ℕ) (ps : List Plan)
    → Good s xs ps
    → Good (copy_on_write s) xs ps
      × (holds (copy_on_write s).slots (copy_on_write s).calls ≡ false)
      × ((copy_on_write s).alive ≡ s.alive)
unfolding copy_on_write put
copy_on_write-Good s xs ps (e, h, g) = elim (Bool-cases (holds s.slots s.calls)) [
  | inl k ↦
      let (g', n) = Goes-new s.lists s.made (s.lists s.slots) s.calls ps g in
      rw k ((rw (==_refl s.made) e, omega arith, g'), n, refl)
  | inr k ↦ rw k ((e, h, g), k, refl)
]

set_list-Good :
    (s : SignalImpl) (xs ys : List ℕ) (ps : List Plan)
    → Good s xs ps
    → holds s.slots s.calls ≡ false
    → Good (set_list s ys) ys ps
unfolding set_list put
set_list-Good s xs ys ps (e, h, g) n =
    (rw (==_refl s.slots) refl, h, Goes-put s.lists s.made s.slots ys s.calls ps n g)

-- The list is changed by `f` once no call holds it.
written-Good :
    (s : SignalImpl) (xs : List ℕ) (ps : List Plan) (f : List ℕ → List ℕ)
    → Good s xs ps
    → (let t = copy_on_write s in Good (set_list t (f (t.lists t.slots))) (f xs) ps)
written-Good s xs ps f g =
    let (good, u, al) = copy_on_write-Good s xs ps g in
    let t = copy_on_write s in
    subst (λ ys. Good (set_list t ys) (f xs) ps) (sym (ap f good.0))
      (set_list-Good t xs (f xs) ps good u)

-- The weak pointers that have expired are those of the slots that went.
abbrev Expired : (ℕ → Bool) → List ℕ → Type 0
Expired alive gone = (x : ℕ) → alive x ≡ not (is_in x gone)

expire-Expired :
    (alive : ℕ → Bool) (gone : List ℕ) (x : ℕ)
    → Expired alive gone
    → Expired (λ i. not (i == x) && alive i) (x ∷ gone)
expire-Expired alive gone x h i = elim (Bool-cases (i == x)) [
  | inl e ↦ rw e refl
  | inr e ↦ rw e (h i)
]

kept-remaining :
    (alive : ℕ → Bool) (gone xs : List ℕ) → Expired alive gone → kept alive xs ≡ remaining gone xs
unfolding kept
kept-remaining alive gone [] h = refl
kept-remaining alive gone (x ∷ xs) h = rw (h x, kept-remaining alive gone xs h) refl

-- The slot that an iterator is at is the first of those to come.
get_elem?-drop :
    (n : ℕ) (xs ys : List ℕ) (x : ℕ)
    → drop n xs ≡ x ∷ ys
    → (get_elem? xs n ≡ some x) × (drop (suc n) xs ≡ ys)
get_elem?-drop zero [] ys x e = absurd (ground (arith, e))
get_elem?-drop zero (y ∷ xs) ys x e = (ground (arith, e), ground (arith, e))
get_elem?-drop (suc n) [] ys x e = absurd (ground (arith, e))
get_elem?-drop (suc n) (y ∷ xs) ys x e = get_elem?-drop n xs ys x e

get_elem?-end : (n : ℕ) (xs : List ℕ) → drop n xs ≡ [] → get_elem? xs n ≡ none
get_elem?-end zero [] e = refl
get_elem?-end zero (y ∷ xs) e = absurd (ground (arith, e))
get_elem?-end (suc n) [] e = refl
get_elem?-end (suc n) (y ∷ xs) e = get_elem?-end n xs e

abbrev Follows : (ℕ → List ℕ) → Call → Plan → Type 0
Follows lists c p = (drop c.next (lists c.list) ≡ p.to_come) × (c.ran ≡ p.has_run)

visit-Follows :
    (s : SignalImpl) (gone : List ℕ) (tie : ℕ → Bool) (c : Call) (p : Plan)
    → Expired s.alive gone
    → Follows s.lists c p
    → Follows s.lists (visit s tie c) (go_on gone tie p) × ((visit s tie c).list ≡ c.list)
unfolding visit visited
visit-Follows s gone tie c p al (e, r) = come p.to_come e
  where
    come :
        (xs : List ℕ)
        → drop c.next (s.lists c.list) ≡ xs
        → Follows s.lists (visit s tie c) (come_to gone tie xs p) × ((visit s tie c).list ≡ c.list)
    come [] e' = rw (get_elem?-end c.next (s.lists c.list) e') ((e, r), refl)
    come (x ∷ xs) e' =
        let (f, g) = get_elem?-drop c.next (s.lists c.list) xs x e' in
        rw f ((g, rw (al x, r) refl), refl)

Goes-advance :
    (s : SignalImpl) (gone : List ℕ) (tie : ℕ → Bool) (made k : ℕ) (cs : List Call) (ps : List Plan)
    → Expired s.alive gone
    → Goes s.lists made cs ps
    → Goes s.lists made (at_call (visit s tie) k cs) (goes_on gone tie k ps)
Goes-advance s gone tie made k [] [] al g = g
Goes-advance s gone tie made k [] (p ∷ ps) al g = absurd g
Goes-advance s gone tie made k (c ∷ cs) [] al g = absurd g
Goes-advance s gone tie made zero (c ∷ cs) (p ∷ ps) al (e, h, g) =
    let (f, l) = visit-Follows s gone tie c p al e in (f, rw l h, g)
Goes-advance s gone tie made (suc k) (c ∷ cs) (p ∷ ps) al (e, h, g) =
    (e, h, Goes-advance s gone tie made k cs ps al g)

Goes-without_at :
    (lists : ℕ → List ℕ) (made k : ℕ) (cs : List Call) (ps : List Plan)
    → Goes lists made cs ps
    → Goes lists made (without_at k cs) (without_plan k ps)
Goes-without_at lists made k [] [] g = g
Goes-without_at lists made k [] (p ∷ ps) g = absurd g
Goes-without_at lists made k (c ∷ cs) [] g = absurd g
Goes-without_at lists made zero (c ∷ cs) (p ∷ ps) (e, h, g) = g
Goes-without_at lists made (suc k) (c ∷ cs) (p ∷ ps) (e, h, g) =
    (e, h, Goes-without_at lists made k cs ps g)

abbrev Kept : SignalImpl → List ℕ → List ℕ → List Plan → Type 0
Kept s xs gone ps = Good s xs ps × Expired s.alive gone

written-Kept :
    (s : SignalImpl) (xs gone : List ℕ) (ps : List Plan) (f : List ℕ → List ℕ)
    → Kept s xs gone ps
    → (let t = copy_on_write s in Kept (set_list t (f (t.lists t.slots))) (f xs) gone ps)
unfolding set_list
written-Kept s xs gone ps f (g, al) = (
  written-Good s xs ps f g,
  subst (λ a. Expired a gone) (sym (copy_on_write-Good s xs ps g).2) al,
)

Reaches-Kept :
    (s : SignalImpl) (xs gone : List ℕ) (ps : List Plan) → Reaches s xs gone ps → Kept s xs gone ps
unfolding connect add expire clean begin_call advance end_call
Reaches-Kept _ _ _ _ begins = ((refl, omega arith, tt), λ x. refl)
Reaches-Kept _ _ gone ps (connects {s = s} {xs = xs} r) =
    written-Kept (record s { next_slot = suc s.next_slot }) xs gone ps
      (λ l. l ++ (s.next_slot ∷ [])) (Reaches-Kept s xs gone ps r)
Reaches-Kept _ xs _ ps (expires {s = s} {gone = gone} x b r) =
    let (g, al) = Reaches-Kept s xs gone ps r in (g, expire-Expired s.alive gone x al)
Reaches-Kept _ _ gone ps (cleans {s = s} {xs = xs} r) =
    let h = Reaches-Kept s xs gone ps r in
    subst (λ ys. Kept (clean s) ys gone ps) (kept-remaining s.alive gone xs h.1)
      (written-Kept s xs gone ps (kept s.alive) h)
Reaches-Kept _ xs gone _ (calls_all {s = s} {ps = ps} r) =
    let ((e, h, g), al) = Reaches-Kept s xs gone ps r in ((e, h, ((e, refl), h, g)), al)
Reaches-Kept _ xs gone _ (visits {s = s} {ps = ps} tie k r) =
    let ((e, h, g), al) = Reaches-Kept s xs gone ps r in
    ((e, h, Goes-advance s gone tie s.made k s.calls ps al g), al)
Reaches-Kept _ xs gone _ (returns {s = s} {ps = ps} k r) =
    let ((e, h, g), al) = Reaches-Kept s xs gone ps r in
    ((e, h, Goes-without_at s.lists s.made k s.calls ps g), al)

-- In any order of slots that are connected, that expire and are cleaned away, and of calls, nested
-- and from any thread: the list of the signal holds the slots that were connected, in order, less
-- those that had expired when it was cleaned; and each call in progress goes, one slot in a round,
-- through the slots of the signal's list when it began, whatever is connected or cleaned away
-- meanwhile, and has run the callbacks of exactly those slots that it came to before they expired
-- and, where they are tied, while what they are tied to lived.
pub Reaches-copies :
    (s : SignalImpl) (xs gone : List ℕ) (ps : List Plan)
    → Reaches s xs gone ps
    → (s.lists s.slots ≡ xs) × Goes s.lists s.made s.calls ps
Reaches-copies s xs gone ps r = let ((e, h, g), al) = Reaches-Kept s xs gone ps r in (e, g)
