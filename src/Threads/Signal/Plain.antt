-- ===== src/Threads/Signal/Plain.antt =====
-- pallette/SignalSlot.hpp, as if nothing were shared: a call is handed a list of its own.
use pallette.Base.{ℕ, zero, suc, ◌<◌, Bool, false, not, ◌||◌, ◌&&◌, List, [], ◌∷◌, ◌++◌}
use pallette.Base.Tests.{◌==◌, if◌then◌else◌}
use pallette.Threads.Signal.{SignalImpl, new, connect, expire, clean, begin_call, advance, end_call}

-- A call in progress: the slots that it has still to come to, and those whose callbacks it ran.
pub record Plan : Type 0 where
  pub to_come : List ℕ
  pub has_run : List ℕ

abbrev pub is_in : ℕ → List ℕ → Bool
is_in x [] = false
is_in x (y ∷ ys) = (x == y) || is_in x ys

abbrev pub remaining : (gone : List ℕ) → List ℕ → List ℕ
remaining gone [] = []
remaining gone (x ∷ xs) = if not (is_in x gone) then x ∷ remaining gone xs else remaining gone xs

-- A call comes to its next slot, the first of those to come.
abbrev pub come_to : (gone : List ℕ) → (tie : ℕ → Bool) → List ℕ → Plan → Plan
come_to gone tie [] p = p
come_to gone tie (x ∷ xs) p = record {
  to_come = xs;
  has_run = if not (is_in x gone) && tie x then p.has_run ++ (x ∷ []) else p.has_run;
}

abbrev pub go_on : (gone : List ℕ) → (tie : ℕ → Bool) → Plan → Plan
go_on gone tie p = come_to gone tie p.to_come p

abbrev pub goes_on : (gone : List ℕ) → (tie : ℕ → Bool) → ℕ → List Plan → List Plan
goes_on gone tie k [] = []
goes_on gone tie zero (p ∷ ps) = go_on gone tie p ∷ ps
goes_on gone tie (suc k) (p ∷ ps) = p ∷ goes_on gone tie k ps

abbrev pub without_plan : ℕ → List Plan → List Plan
without_plan k [] = []
without_plan zero (p ∷ ps) = ps
without_plan (suc k) (p ∷ ps) = p ∷ without_plan k ps

-- The signals that are reached, with the slots in the signal's list, those whose last handle has
-- gone, and the calls in progress.
pub data Reaches : SignalImpl → List ℕ → List ℕ → List Plan → Type 0 where
  begins : Reaches new [] [] []
  connects :
      {s : SignalImpl} {xs gone : List ℕ} {ps : List Plan}
      → Reaches s xs gone ps
      → Reaches (connect s) (xs ++ (s.next_slot ∷ [])) gone ps
  expires :
      {s : SignalImpl} {xs gone : List ℕ} {ps : List Plan} (x : ℕ)
      → x < s.next_slot
      → Reaches s xs gone ps
      → Reaches (expire s x) xs (x ∷ gone) ps
  cleans :
      {s : SignalImpl} {xs gone : List ℕ} {ps : List Plan}
      → Reaches s xs gone ps
      → Reaches (clean s) (remaining gone xs) gone ps
  calls_all :
      {s : SignalImpl} {xs gone : List ℕ} {ps : List Plan}
      → Reaches s xs gone ps
      → Reaches (begin_call s) xs gone (record { to_come = xs; has_run = [] } ∷ ps)
  visits :
      {s : SignalImpl} {xs gone : List ℕ} {ps : List Plan} (tie : ℕ → Bool) (k : ℕ)
      → Reaches s xs gone ps
      → Reaches (advance s tie k) xs gone (goes_on gone tie k ps)
  returns :
      {s : SignalImpl} {xs gone : List ℕ} {ps : List Plan} (k : ℕ)
      → Reaches s xs gone ps
      → Reaches (end_call s k) xs gone (without_plan k ps)
