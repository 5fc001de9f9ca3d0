-- ===== src/Logging/Async/Lines.antt =====
-- The buffers of a sound state, and a line that is logged.
use pallette.Base.{
  ℕ, ◌≤◌, ◌≡◌, refl, sym, ap, ◌∙◌, true, inl, inr, List, [], ◌∷◌, ◌++◌, Option, none, some, arith,
  append_assoc, append-nil,
}
use pallette.Base.Tests.{ltb, Bool-cases, ltb→lt, lt→ltb}
use pallette.Base.Lists.{length, take, length-append, take_all, All, All-append}
use pallette.Logging.Stream.{LogBuffer, empty, large_buffer, avail, append, reset}
use pallette.Logging.Stream.Bounds.{IsValid, append-take, append-Extends}
use pallette.Logging.Async.{
  Phase, checking, collecting, writing, finished, AsyncLogging, next_or_new, append_line, held,
  resize, recycle,
}

-- A line is cut to the size of a buffer.
abbrev pub texts : List (List ℕ) → List ℕ
texts [] = []
texts (line ∷ lines) = take large_buffer line ++ texts lines

texts-append : (xs ys : List (List ℕ)) → texts (xs ++ ys) ≡ texts xs ++ texts ys
texts-append [] ys = refl
texts-append (x ∷ xs) ys =
    ap (λ t. take large_buffer x ++ t) (texts-append xs ys)
    ∙ sym (append_assoc (take large_buffer x) (texts xs) (texts ys))

held-append : (bs cs : List LogBuffer) → held (bs ++ cs) ≡ held bs ++ held cs
held-append [] cs = refl
held-append (b ∷ bs) cs =
    ap (λ t. b.data' ++ t) (held-append bs cs) ∙ sym (append_assoc b.data' (held bs) (held cs))

abbrev Blank : LogBuffer → Type 0
Blank b = b ≡ empty large_buffer

abbrev pub Large : LogBuffer → Type 0
Large b = b.size ≡ large_buffer

-- Without a next buffer, a full one waits for the thread.
abbrev pub NextOf : Option LogBuffer → ℕ → Type 0
NextOf none n = 1 ≤ n
NextOf (some b) n = Blank b

-- While it writes, the thread has enough buffers to take two of its own from.
abbrev pub SpareOf : Option LogBuffer → ℕ → Type 0
SpareOf none n = 2 ≤ n
SpareOf (some b) n = Blank b × (1 ≤ n)

abbrev pub Idle : Option LogBuffer → Option LogBuffer → List LogBuffer → Type 0
Idle new1 new2 to_write =
    (new1 ≡ some (empty large_buffer)) × (new2 ≡ some (empty large_buffer)) × (to_write ≡ [])

abbrev pub Writes : Option LogBuffer → Option LogBuffer → List LogBuffer → Type 0
Writes new1 new2 to_write = (new1 ≡ none) × SpareOf new2 (length to_write) × All Large to_write

abbrev pub Owns : Phase → Option LogBuffer → Option LogBuffer → List LogBuffer → Type 0
Owns checking = Idle
Owns collecting = Idle
Owns writing = Writes
Owns finished = Idle

-- What is on its way, after what is in the file.
abbrev pub all_of : AsyncLogging → List ℕ → List ℕ
all_of s current = s.file ++ (held s.to_write ++ (held s.buffers ++ current))

pub record IsSound (lines : List (List ℕ)) (s : AsyncLogging) : Type 0 where
  pub now : LogBuffer
  pub has_now : s.current ≡ some now
  pub large : Large now
  pub valid : IsValid now
  pub backup : NextOf s.next (length s.buffers)
  pub full : All Large s.buffers
  pub owns : Owns s.phase s.new1 s.new2 s.to_write
  pub kept : all_of s now.data' ≡ texts lines

reset-Blank : (b : LogBuffer) → Large b → reset b ≡ empty large_buffer
reset-Blank b h = ap (λ n. record { size = n; data' = [] }) h

resize_lem : (a b : LogBuffer) (bs : List LogBuffer) → resize (a ∷ b ∷ bs) ≡ a ∷ b ∷ []
resize_lem a b [] = refl
resize_lem a b (c ∷ bs) = rw (lt→ltb 2 (length (a ∷ b ∷ c ∷ bs)) (omega arith)) refl

-- Two buffers come back, the last two of the first two that were written.
pub recycle_lem :
    (new2 : Option LogBuffer) (bs : List LogBuffer)
    → SpareOf new2 (length bs)
    → All Large bs
    → recycle none new2 bs ≡ some (empty large_buffer, empty large_buffer)
unfolding recycle
recycle_lem none [] h l = absurd (omega (arith, h))
recycle_lem none (a ∷ []) h l = absurd (omega (arith, h))
recycle_lem none (a ∷ b ∷ bs) h (la, (lb, l)) =
    rw (resize_lem a b bs, reset-Blank b lb, reset-Blank a la) refl
recycle_lem (some n) [] (e, h) l = absurd (omega (arith, h))
recycle_lem (some n) (a ∷ []) (e, h) (la, l) = rw (reset-Blank a la, e) refl
recycle_lem (some n) (a ∷ b ∷ bs) (e, h) (la, (lb, l)) =
    rw (resize_lem a b bs, reset-Blank b lb, e) refl

append_cut :
    (b : LogBuffer) (line : List ℕ) → Blank b → (append b line).data' ≡ take large_buffer line
append_cut b line e =
    ap (λ b. (append b line).data') e ∙ append-take (empty large_buffer) line (omega arith)

next_or_new-Blank : (o : Option LogBuffer) (n : ℕ) → NextOf o n → Blank (next_or_new o)
next_or_new-Blank none n h = refl
next_or_new-Blank (some b) n h = h

abbrev Runs : List (List ℕ) → Option AsyncLogging → Type 0
Runs lines r = (t : AsyncLogging) × (r ≡ some t) × IsSound lines t

pub held_push : (bs : List LogBuffer) (b : LogBuffer) → held (bs ++ (b ∷ [])) ≡ held bs ++ b.data'
held_push bs b = held-append bs (b ∷ []) ∙ ap (λ t. held bs ++ t) (append-nil b.data')

texts_push :
    (lines : List (List ℕ)) (line : List ℕ)
    → texts (lines ++ (line ∷ [])) ≡ texts lines ++ take large_buffer line
texts_push lines line =
    texts-append lines (line ∷ [])
    ∙ ap (λ t. texts lines ++ t) (append-nil (take large_buffer line))

pub behind : (f w b c l : List ℕ) → f ++ (w ++ (b ++ (c ++ l))) ≡ f ++ (w ++ (b ++ c)) ++ l
behind f w b c l = simp append_assoc

append_fits :
    (b : LogBuffer) (l : List ℕ)
    → ltb (length l) (avail b) ≡ true
    → (append b l).data' ≡ b.data' ++ l
unfolding append
append_fits b l e = rw e refl

append_line-fits :
    (lines : List (List ℕ)) (s : AsyncLogging) (line : List ℕ) (h : IsSound lines s)
    → ltb (length line) (avail h.now) ≡ true
    → IsSound (lines ++ (line ∷ [])) (record s { current = some (append h.now line) })
append_line-fits lines s line h fits =
    let e = append-Extends h.now line h.valid in
    record {
      now = append h.now line;
      has_now = refl;
      large = e.same_size ∙ h.large;
      valid = e.valid;
      backup = h.backup;
      full = h.full;
      owns = h.owns;
      kept =
          ap (all_of s) (append_fits h.now line fits)
          ∙ behind s.file (held s.to_write) (held s.buffers) h.now.data' line
          ∙ ap (λ t. t ++ line) h.kept
          ∙ ap (λ t. texts lines ++ t)
              (sym (take_all large_buffer line (short h.now line fits h.large)))
          ∙ sym (texts_push lines line);
    }
  where
    short :
        (b : LogBuffer) (l : List ℕ)
        → ltb (length l) (avail b) ≡ true
        → Large b
        → length l ≤ large_buffer
    short b l e g = omega (arith, ltb→lt _ _ e, g)

append_line-full :
    (lines : List (List ℕ)) (s : AsyncLogging) (line : List ℕ) (h : IsSound lines s)
    → IsSound (lines ++ (line ∷ [])) (record s {
      buffers = s.buffers ++ (h.now ∷ []);
      current = some (append (next_or_new s.next) line);
      next = none;
    })
append_line-full lines s line h =
    let blank = next_or_new-Blank s.next (length s.buffers) h.backup in
    let e = append-Extends (next_or_new s.next) line (blank_valid (next_or_new s.next) blank) in
    record {
      now = append (next_or_new s.next) line;
      has_now = refl;
      large = e.same_size ∙ ap (λ b. b.size) blank;
      valid = e.valid;
      backup = omega (arith, length-append s.buffers (h.now ∷ []));
      full = All-append Large s.buffers (h.now ∷ []) h.full (h.large, tt);
      owns = h.owns;
      kept =
          ap (λ t. s.file ++ (held s.to_write ++ (held (s.buffers ++ (h.now ∷ [])) ++ t)))
            (append_cut (next_or_new s.next) line blank)
          ∙ ap (λ t. s.file ++ (held s.to_write ++ (t ++ take large_buffer line)))
              (held_push s.buffers h.now)
          ∙ ap (λ t. s.file ++ (held s.to_write ++ t))
              (append_assoc (held s.buffers) h.now.data' (take large_buffer line))
          ∙ behind s.file (held s.to_write) (held s.buffers) h.now.data' (take large_buffer line)
          ∙ ap (λ t. t ++ take large_buffer line) h.kept
          ∙ sym (texts_push lines line);
    }
  where
    blank_valid : (b : LogBuffer) → Blank b → IsValid b
    blank_valid b e = simp e (omega arith)

pub append_line-Runs :
    (lines : List (List ℕ)) (s : AsyncLogging) (line : List ℕ)
    → IsSound lines s
    → Runs (lines ++ (line ∷ [])) (append_line s line)
unfolding append_line
append_line-Runs lines s line h = elim (Bool-cases (ltb (length line) (avail h.now))) [
  | inl fits ↦ (_, simp (h.has_now, fits) refl, append_line-fits lines s line h fits)
  | inr full ↦ (_, simp (h.has_now, full) refl, append_line-full lines s line h)
]
