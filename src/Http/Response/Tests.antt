-- ===== src/Http/Response/Tests.antt =====
-- A response on a connection that stays open.
use pallette.Base.{ℕ, ◌≡◌, refl, List, ◌++◌, some, arith}
use pallette.Base.Text.{codes}
use pallette.Buffer.{Buffer}
use pallette.Buffer.Samples.{wire, wire-Holds}
use pallette.Buffer.Inv.{Holds}
use pallette.Http.Response.{append_to_buffer}
use pallette.Http.Response.Head.{head_lines, read_response}
use pallette.Http.Response.Reader.{read_response-append_to_buffer}
use pallette.Http.Response.Samples.{decimal, page, code-Prints, size-Prints}

read_response-append_to_buffer_example :
    (b' : Buffer) × (t : List ℕ) × (append_to_buffer decimal page (wire (codes "ab")) ≡ some b')
    × Holds b' (codes "ab" ++ t)
    × ((rest : List ℕ)
        → read_response (t ++ rest) ≡ some (head_lines decimal page, codes "hello", rest))
read_response-append_to_buffer_example =
    read_response-append_to_buffer decimal page refl code-Prints size-Prints (refl, (refl, tt))
      ((ground arith, ground arith), tt) (wire (codes "ab")) (codes "ab") (wire-Holds (codes "ab"))
