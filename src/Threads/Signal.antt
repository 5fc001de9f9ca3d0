-- ===== src/Threads/Signal.antt =====
-- pallette/SignalSlot.hpp: the list of slots is shared with the calls in progress and copied before
-- it is changed, so the store is modelled: a list is known by its number. Each operation is a step,
-- since it holds the mutex; calls may nest or come from several threads.
pub mod Copies
pub mod Plain
mod Tests
use pallette.Base.{
  ℕ, zero, suc, ◌+◌, Bool, true, false, not, ◌||◌, ◌&&◌, List, [], ◌∷◌, ◌++◌, Option, none, some,
}
use pallette.Base.Tests.{◌==◌, if◌then◌else◌}
use pallette.Base.Lists.{get_elem?}

-- A call of the signal: the list it goes through, where it is, and the slots whose callbacks it ran.
pub record Call : Type 0 where
  pub list : ℕ
  pub next : ℕ
  pub ran : List ℕ

-- `alive x` is that the weak pointers to slot `x` can be locked.

pub record SignalImpl : Type 0 where
  pub lists : ℕ → List ℕ
  pub slots : ℕ
  pub made : ℕ
  pub calls : List Call
  pub alive : ℕ → Bool
  pub next_slot : ℕ

abbrev pub new : SignalImpl
new = record { lists = λ l. []; slots = 0; made = 1; calls = []; alive = λ x. true; next_slot = 0 }

unfoldable pub put : ℕ → List ℕ → (ℕ → List ℕ) → ℕ → List ℕ
put l v lists i = if i == l then v else lists i

unfoldable pub holds : ℕ → List Call → Bool
holds l [] = false
holds l (c ∷ cs) = (c.list == l) || holds l cs

-- `slots_.unique()` is that no call holds the list.
unfoldable pub copy_on_write : SignalImpl → SignalImpl
copy_on_write s =
    if holds s.slots s.calls
    then record s {
      lists = put s.made (s.lists s.slots) s.lists;
      slots = s.made;
      made = suc s.made;
    }
    else s

unfoldable pub set_list : SignalImpl → List ℕ → SignalImpl
set_list s v = record s { lists = put s.slots v s.lists }

unfoldable pub kept : (ℕ → Bool) → List ℕ → List ℕ
kept alive [] = []
kept alive (x ∷ xs) = if alive x then x ∷ kept alive xs else kept alive xs

unfoldable pub clean : SignalImpl → SignalImpl
clean s = let t = copy_on_write s in set_list t (kept s.alive (t.lists t.slots))

unfoldable pub add : SignalImpl → ℕ → SignalImpl
add s x = let t = copy_on_write s in set_list t (t.lists t.slots ++ (x ∷ []))

unfoldable pub connect : SignalImpl → SignalImpl
connect s = add (record s { next_slot = suc s.next_slot }) s.next_slot

-- The last handle of a slot goes: the weak pointers expire, and then `~SlotImpl` cleans the list.
unfoldable pub expire : SignalImpl → ℕ → SignalImpl
expire s x = record s { alive = λ i. not (i == x) && s.alive i }

unfoldable pub begin_call : SignalImpl → SignalImpl
begin_call s = record s { calls = record { list = s.slots; next = 0; ran = [] } ∷ s.calls }

-- One round of the loop of a call: the callback runs if the slot lives and, where it is tied, so
-- does what it is tied to. At the end of the list there is none.
unfoldable pub visited : SignalImpl → (tie : ℕ → Bool) → Option ℕ → Call → Call
visited s tie none c = c
visited s tie (some x) c = record c {
  next = suc c.next;
  ran = if s.alive x && tie x then c.ran ++ (x ∷ []) else c.ran;
}

unfoldable pub visit : SignalImpl → (tie : ℕ → Bool) → Call → Call
visit s tie c = visited s tie (get_elem? (s.lists c.list) c.next) c

abbrev pub at_call {ℓ} : {A : Type ℓ} → (A → A) → ℕ → List A → List A
at_call f k [] = []
at_call f zero (c ∷ cs) = f c ∷ cs
at_call f (suc k) (c ∷ cs) = c ∷ at_call f k cs

unfoldable pub advance : SignalImpl → (tie : ℕ → Bool) → ℕ → SignalImpl
advance s tie k = record s { calls = at_call (visit s tie) k s.calls }

abbrev pub without_at {ℓ} : {A : Type ℓ} → ℕ → List A → List A
without_at k [] = []
without_at zero (c ∷ cs) = cs
without_at (suc k) (c ∷ cs) = c ∷ without_at k cs

unfoldable pub end_call : SignalImpl → ℕ → SignalImpl
end_call s k = record s { calls = without_at k s.calls }
