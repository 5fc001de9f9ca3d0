-- ===== src/Buffer/Tests.antt =====
-- Runs of the buffer on small inputs, and its theorems at them.
use pallette.Base.{◌≡◌, refl, ◌++◌, some}
use pallette.Base.Lists.{replicate}
use pallette.Base.Text.{codes}
use pallette.Buffer.Slices.{slice, write_at}
use pallette.Buffer.{
  new, append, readable_bytes, writable_bytes, ensure_writable_bytes, make_space, has_written,
  prependable_bytes, resize,
}
use pallette.Buffer.Samples.{wire, wire-Holds}
use pallette.Buffer.Ops.{append_lem}
use pallette.Buffer.Integers.RoundTrip.{Gives}

-- Two bytes of room, so that the text does not fit and the vector grows.
append_grows :
    append (new 2) (codes "hello")
    ≡ some (record { buffer = replicate 8 0 ++ codes "hello"; read_index = 8; write_index = 13 })
unfolding append ensure_writable_bytes make_space new has_written readable_bytes writable_bytes
    prependable_bytes resize slice write_at
append_grows = refl

append_lem_example : Gives (append (wire (codes "abc")) (codes "de")) (codes "abcde")
append_lem_example =
    append_lem (wire (codes "abc")) (codes "abc") (codes "de") (wire-Holds (codes "abc"))
