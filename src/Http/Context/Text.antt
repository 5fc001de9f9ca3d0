-- ===== src/Http/Context/Text.antt =====
-- The parser on the bytes to be read, without a buffer: the specification of `parseRequest`.
use pallette.Base.{ℕ, zero, suc, ◌+◌, Bool, true, false, List, [], ◌∷◌, Option, none, some}
use pallette.Base.Tests.{leb, if◌then◌else◌}
use pallette.Base.Int.{ℤ}
use pallette.Base.Lists.{length, take, drop}
use pallette.Base.Text.{codes}
use pallette.Buffer.Slices.{memmem}
use pallette.Http.Request.{HttpRequest, get_header}
use pallette.Http.Context.{
  State, expect_request_line, expect_headers, expect_body, got_all, HttpContext, Round, more, stop,
  throws, crlf, process_request_line, process_header_line, round_of, stoi, to_size, Parsed, running,
  go_on,
}

-- The first line, and what follows its line break.
unfoldable pub cut_line : List ℕ → Option (List ℕ × List ℕ)
cut_line xs = elim (memmem xs crlf) [ none ↦ none | some k ↦ some (take k xs, drop (k + 2) xs) ]

abbrev pub request_line_text :
    HttpContext → ℕ → List ℕ → List ℕ → Option (Bool × HttpRequest) → Option (Round (List ℕ))
request_line_text c now xs rest none = none
request_line_text c now xs rest (some (true, r)) =
    some (more (record { state = expect_headers; request = record r { receive_time = now } }) rest)
request_line_text c now xs rest (some (false, r)) = some (stop false (record c { request = r }) xs)

abbrev pub body_text : HttpContext → List ℕ → Option ℤ → Option (Round (List ℕ))
body_text c xs none = some throws
body_text c xs (some n) =
    if leb (to_size n) (length xs)
    then some (
        stop true
          (record { state = got_all; request = record c.request { query = take (to_size n) xs } })
          (drop (to_size n) xs))
    else some (stop true c xs)

unfoldable pub text_step : State → HttpContext → ℕ → List ℕ → Option (Round (List ℕ))
text_step expect_request_line c now xs = elim (cut_line xs) [
  | none ↦ some (stop true c xs)
  | some (line, rest) ↦ request_line_text c now xs rest (process_request_line c.request line)
]
text_step expect_headers c now xs = elim (cut_line xs) [
  | none ↦ some (stop true c xs)
  | some (line, rest) ↦ some (round_of (process_header_line c line) rest)
]
text_step expect_body c now xs = elim (get_header c.request (codes "Content-Length")) [
  | [] ↦ some (stop true c xs)
  | d ∷ ds ↦ body_text c xs (stoi (d ∷ ds))
]
text_step got_all c now xs = some (more c xs)

unfoldable pub text_loop : ℕ → HttpContext → ℕ → List ℕ → Parsed (List ℕ)
text_loop zero c now xs = running
text_loop (suc fuel) c now xs =
    go_on (λ c' xs'. text_loop fuel c' now xs') (text_step c.state c now xs)

unfoldable pub parse_text : HttpContext → ℕ → List ℕ → Parsed (List ℕ)
parse_text c now xs = text_loop (length xs + 2) c now xs
