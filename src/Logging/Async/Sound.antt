-- ===== src/Logging/Async/Sound.antt =====
-- Every step of the threads keeps the buffers in order.
use pallette.Base.{
  ℕ, ◌+◌, ◌≤◌, ◌≡◌, refl, sym, ap, ◌∙◌, subst, Bool, true, false, List, [], ◌∷◌, ◌++◌, Option, none,
  some, arith, append_assoc, append-nil,
}
use pallette.Base.Tests.{if◌then◌else◌, some_inj}
use pallette.Base.Lists.{length, length-append, All-append}
use pallette.Logging.Stream.{LogBuffer, empty, large_buffer}
use pallette.Logging.Async.Lines.{
  IsSound, Large, NextOf, SpareOf, Idle, Writes, Owns, recycle_lem, held_push, append_line-Runs,
}
use pallette.Logging.Async.{
  checking, collecting, writing, finished, AsyncLogging, started, stop, check_running, is_empty,
  moved_to, moved_from, collect, held, write, Reaches, start, logs, stops, checks, collects, writes,
}

backup_lem :
    (next : Option LogBuffer) (n : ℕ)
    → NextOf next n
    → NextOf (moved_to next (some (empty large_buffer))) 0
backup_lem none n h = refl
backup_lem (some b) n h = h

spare_lem :
    (next : Option LogBuffer) (n k : ℕ)
    → NextOf next n
    → n + 1 ≤ k
    → SpareOf (moved_from next (some (empty large_buffer))) k
spare_lem none n k h l = omega (arith, h, l)
spare_lem (some b) n k h l = (refl, omega (arith, l))

abbrev pub collected : AsyncLogging → LogBuffer → AsyncLogging
collected s c = record s {
  current = s.new1;
  next = moved_to s.next s.new2;
  buffers = [];
  phase = writing;
  new1 = none;
  new2 = moved_from s.next s.new2;
  to_write = s.buffers ++ (c ∷ []);
}

module _ (lines : List (List ℕ)) (s : AsyncLogging) (p : s.phase ≡ collecting)
    (h : IsSound lines s) where
  spare_buffers : Idle s.new1 s.new2 s.to_write
  spare_buffers = subst (λ p. Owns p s.new1 s.new2 s.to_write) p h.owns

  pub collect_lem : collect s ≡ some (collected s h.now)
  unfolding collect
  collect_lem = simp (spare_buffers.2, h.has_now) refl

  collected-IsSound : IsSound lines (collected s h.now)
  collected-IsSound =
      let (e1, e2, e3) = spare_buffers in
      let n = length s.buffers in
      record {
        now = empty large_buffer;
        has_now = e1;
        large = refl;
        valid = omega arith;
        backup = subst (λ o. NextOf (moved_to s.next o) 0) (sym e2) (backup_lem s.next n h.backup);
        full = tt;
        owns = (
          refl,
          subst (λ o. SpareOf (moved_from s.next o) (length (s.buffers ++ (h.now ∷ [])))) (sym e2)
              (spare_lem s.next n _ h.backup (omega (arith, length-append s.buffers (h.now ∷ [])))),
          All-append Large s.buffers (h.now ∷ []) h.full (h.large, tt),
        );
        kept =
            ap (λ t. s.file ++ t) (append-nil _ ∙ held_push s.buffers h.now)
            ∙ ap (λ bs. s.file ++ (held bs ++ (held s.buffers ++ h.now.data'))) (sym e3)
            ∙ h.kept;
      }

not_empty :
    (o : Option LogBuffer) (bs : List LogBuffer) → SpareOf o (length bs) → is_empty bs ≡ false
not_empty none [] h = absurd (omega (arith, h))
not_empty (some b) [] (e, h) = absurd (omega (arith, h))
not_empty none (b ∷ bs) h = refl
not_empty (some c) (b ∷ bs) h = refl

abbrev pub written : AsyncLogging → AsyncLogging
written s = record s {
  phase = checking;
  new1 = some (empty large_buffer);
  new2 = some (empty large_buffer);
  to_write = [];
  file = s.file ++ held s.to_write;
}

module _ (lines : List (List ℕ)) (s : AsyncLogging) (p : s.phase ≡ writing)
    (h : IsSound lines s) where
  writing_buffers : Writes s.new1 s.new2 s.to_write
  writing_buffers = subst (λ p. Owns p s.new1 s.new2 s.to_write) p h.owns

  pub write_lem : write s ≡ some (written s)
  unfolding write
  write_lem =
      let (e1, spare, all) = writing_buffers in
      simp (not_empty s.new2 s.to_write spare, e1, recycle_lem s.new2 s.to_write spare all) refl

  written-IsSound : IsSound lines (written s)
  written-IsSound = record {
    now = h.now;
    has_now = h.has_now;
    large = h.large;
    valid = h.valid;
    backup = h.backup;
    full = h.full;
    owns = (refl, refl, refl);
    kept = append_assoc s.file (held s.to_write) (held s.buffers ++ h.now.data') ∙ h.kept;
  }

check_running-IsSound :
    (lines : List (List ℕ)) (s : AsyncLogging)
    → s.phase ≡ checking
    → IsSound lines s
    → IsSound lines (check_running s)
check_running-IsSound lines s p h =
    let idle = subst (λ p. Owns p s.new1 s.new2 s.to_write) p h.owns in
    record {
      now = h.now;
      has_now = h.has_now;
      large = h.large;
      valid = h.valid;
      backup = h.backup;
      full = h.full;
      owns = either s.running s.new1 s.new2 s.to_write idle;
      kept = h.kept;
    }
  where
    either :
        (r : Bool) (a b : Option LogBuffer) (w : List LogBuffer)
        → Idle a b w
        → Owns (if r then collecting else finished) a b w
    either true a b w h = h
    either false a b w h = h

started-IsSound : IsSound [] started
started-IsSound = record {
  now = empty large_buffer;
  has_now = refl;
  large = refl;
  valid = omega arith;
  backup = refl;
  full = tt;
  owns = (refl, refl, refl);
  kept = refl;
}

stop-IsSound : (lines : List (List ℕ)) (s : AsyncLogging) → IsSound lines s → IsSound lines (stop s)
stop-IsSound lines s h = record {
  now = h.now;
  has_now = h.has_now;
  large = h.large;
  valid = h.valid;
  backup = h.backup;
  full = h.full;
  owns = h.owns;
  kept = h.kept;
}

follows :
    (lines : List (List ℕ)) (r : Option AsyncLogging) (t u : AsyncLogging)
    → r ≡ some u
    → IsSound lines u
    → r ≡ some t
    → IsSound lines t
follows lines r t u e h f = subst (IsSound lines) (some_inj (sym e ∙ f)) h

pub Reaches-IsSound : (lines : List (List ℕ)) (s : AsyncLogging) → Reaches lines s → IsSound lines s
Reaches-IsSound [] s start = started-IsSound
Reaches-IsSound lines t (logs {lines = before} {s = s} line r e) =
    let (u, f, g) = append_line-Runs before s line (Reaches-IsSound before s r) in
    follows (before ++ (line ∷ [])) _ t u f g e
Reaches-IsSound lines t (stops {s = s} r) = stop-IsSound lines s (Reaches-IsSound lines s r)
Reaches-IsSound lines t (checks {s = s} r p) =
    check_running-IsSound lines s p (Reaches-IsSound lines s r)
Reaches-IsSound lines t (collects {s = s} r p e) =
    let h = Reaches-IsSound lines s r in
    follows lines _ t _ (collect_lem lines s p h) (collected-IsSound lines s p h) e
Reaches-IsSound lines t (writes {s = s} r p e) =
    let h = Reaches-IsSound lines s r in
    follows lines _ t _ (write_lem lines s p h) (written-IsSound lines s p h) e
