-- ===== src/Logging/Async/Kept.antt =====
-- What was logged is in the file, or on its way to it, in the order in which it was logged.
use pallette.Base.{ℕ, ◌≡◌, refl, List, ◌++◌, some}
use pallette.Logging.Stream.{LogBuffer}
use pallette.Logging.Async.Lines.{texts, all_of, append_line-Runs}
use pallette.Logging.Async.Sound.{Reaches-IsSound, collect_lem, write_lem}
use pallette.Logging.Async.{
  collecting, writing, AsyncLogging, append_line, collect, held, write, Reaches,
}

-- Whatever order the steps of the threads take: there is a current buffer, and the file, the
-- buffers that are being written, the full buffers that wait and the current one hold, one behind
-- the other, the lines that were logged, in order, each cut to the size of a buffer.
pub Reaches-kept :
    (lines : List (List ℕ)) (s : AsyncLogging)
    → Reaches lines s
    → (c : LogBuffer) × (s.current ≡ some c) × (all_of s c.data' ≡ texts lines)
Reaches-kept lines s r = let h = Reaches-IsSound lines s r in (h.now, h.has_now, h.kept)

-- Whatever order the steps of the threads take, no buffer that was moved away is used: a line can be
-- logged, the locked part of the thread's loop can run when the thread is before it, and then what
-- it took can be written and two buffers taken back, and what it took is then in the file.
pub Reaches-steps :
    (lines : List (List ℕ)) (s : AsyncLogging)
    → Reaches lines s
    → ((line : List ℕ) → (t : AsyncLogging) × (append_line s line ≡ some t))
      × (s.phase ≡ collecting → (t : AsyncLogging) × (collect s ≡ some t) × (t.phase ≡ writing))
      × (s.phase ≡ writing
          → (t : AsyncLogging) × (write s ≡ some t) × (t.file ≡ s.file ++ held s.to_write))
Reaches-steps lines s r =
    let h = Reaches-IsSound lines s r in
    (
      λ line. let (t, e, g) = append_line-Runs lines s line h in (t, e),
      λ p. (_, collect_lem lines s p h, refl),
      λ p. (_, write_lem lines s p h, refl),
    )
