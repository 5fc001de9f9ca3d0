-- ===== src/Http/Context/RoundTrip.antt =====
-- A printed request, with whatever follows it, is parsed back.
use pallette.Base.{
  ℕ, suc, ◌+◌, ◌-◌, ◌≤◌, ◌≡◌, refl, ◌∙◌, Bool, true, false, List, [], ◌∷◌, ◌++◌, Option, some,
  arith,
}
use pallette.Base.Tests.{le→leb}
use pallette.Base.Int.{pos}
use pallette.Base.Lists.{length, All-append, length-append, take-append_eq, drop-append_eq}
use pallette.Base.Text.{codes, insert, find}
use pallette.Http.Request
use pallette.Http.Request.{HttpRequest, Method, get_header, is_invalid}
use pallette.Http.Context.{
  expect_headers, got_all, HttpContext, crlf, new, parsed, stoi, to_size, process_header_line,
  round_of, go_on, end_of_headers,
}
use pallette.Http.Context.Text.{text_step, text_loop, parse_text}
use pallette.Http.Context.Lines.{
  Without, cut_line_lem, header_line, IsHeader, header_line_lem, IsTarget, query_bytes, version,
  request_line, process_request_line_lem, request_line-Without,
}

abbrev pub Headers : Type 0
Headers = List (List ℕ × List ℕ)

-- The header lines, and the empty line that ends them.
abbrev pub header_lines : Headers → List ℕ → List ℕ
header_lines [] rest = crlf ++ rest
header_lines ((f, v) ∷ hs) rest = header_line f v ++ (crlf ++ header_lines hs rest)

abbrev pub AreHeaders : Headers → Type 0
AreHeaders [] = Unit {0}
AreHeaders ((f, v) ∷ hs) = IsHeader f v × AreHeaders hs

-- The map that the lines leave: a later line of the same name replaces an earlier one.
abbrev pub add_headers : Headers → Headers → Headers
add_headers m [] = m
add_headers m ((f, v) ∷ hs) = add_headers (insert f v m) hs

abbrev in_headers : HttpRequest → HttpContext
in_headers r = record { state = expect_headers; request = r }

abbrev with_headers : HttpRequest → Headers → HttpRequest
with_headers r m = record r { headers = m }

-- Rounds for the header lines before `fuel` further rounds.
add_rounds : Headers → ℕ → ℕ
add_rounds [] fuel = fuel
add_rounds (h ∷ hs) fuel = suc (add_rounds hs fuel)

add_rounds-eq : (hs : Headers) (fuel : ℕ) → add_rounds hs fuel ≡ length hs + fuel
unfolding add_rounds
add_rounds-eq [] fuel = omega arith
add_rounds-eq (h ∷ hs) fuel = omega (arith, add_rounds-eq hs fuel)

length-header_lines : (hs : Headers) (rest : List ℕ) → length hs + 2 ≤ length (header_lines hs rest)
length-header_lines [] rest = omega arith
length-header_lines ((f, v) ∷ hs) rest = omega (
  arith,
  length-append (header_line f v) (crlf ++ header_lines hs rest),
  length-header_lines hs rest,
)

to_size_pos : (n : ℕ) → to_size (pos n) ≡ n
unfolding to_size
to_size_pos n = refl

header_line-Without : (f v : List ℕ) → IsHeader f v → Without 13 (header_line f v)
header_line-Without f v h = All-append _ f (58 ∷ (32 ∷ v)) h.field_ok.1 (refl, (refl, h.value_ok))

-- One round on a line that is whole.
line_round :
    (r : HttpRequest) (now fuel : ℕ) (line rest : List ℕ)
    → Without 13 line
    → text_loop (suc fuel) (in_headers r) now (line ++ (crlf ++ rest))
      ≡ go_on
          (λ c' xs'. text_loop fuel c' now xs')
          (some (round_of (process_header_line (in_headers r) line) rest))
unfolding text_loop text_step
line_round r now fuel line rest h = rw (cut_line_lem line rest h, text_step)

headers_lem :
    (hs : Headers) (r : HttpRequest) (now fuel : ℕ) (rest : List ℕ)
    → AreHeaders hs
    → text_loop (add_rounds hs fuel) (in_headers r) now (header_lines hs rest)
      ≡ text_loop fuel (in_headers (with_headers r (add_headers r.headers hs))) now (crlf ++ rest)
unfolding add_rounds
headers_lem [] r now fuel rest ok = refl
headers_lem ((f, v) ∷ hs) r now fuel rest ok =
    line_round r now (add_rounds hs fuel) (header_line f v) (header_lines hs rest)
      (header_line-Without f v ok.0)
    ∙ (rw (header_line_lem (in_headers r) f v ok.0)
        (headers_lem hs (with_headers r (insert f v r.headers)) now fuel rest ok.1))

-- The request that a printed one is parsed to.
abbrev pub read_back : Method → List ℕ → Option (List ℕ) → Bool → ℕ → Headers → HttpRequest
read_back m path query one now hs = record {
  method = m;
  version = version one;
  path = path;
  query = query_bytes query;
  receive_time = now;
  headers = add_headers [] hs;
}

abbrev pub print_head : Method → List ℕ → Option (List ℕ) → Bool → Headers → List ℕ → List ℕ
print_head m path query one hs rest =
    request_line m path query one ++ (crlf ++ header_lines hs rest)

module _ (path : List ℕ) (query : Option (List ℕ)) (one : Bool) (hs : Headers) (now : ℕ)
    (t : IsTarget path query) (ok : AreHeaders hs) where
  -- The rounds of the request line and of the header lines.
  head_lem :
      (m : Method) (fuel : ℕ) (rest : List ℕ)
      → is_invalid m ≡ false
      → text_loop (suc (add_rounds hs fuel)) new now (print_head m path query one hs rest)
        ≡ text_loop fuel (in_headers (read_back m path query one now hs)) now (crlf ++ rest)
  unfolding text_loop text_step new Request.new
  head_lem m fuel rest known =
      rw
        (
          cut_line_lem (request_line m path query one) (header_lines hs rest)
              (request_line-Without m path query one t),
          text_step,
          process_request_line_lem m path query one known t,
        )
        (headers_lem hs _ now fuel rest ok)

  -- The fuel that `parseRequest` starts with, split into those rounds and at least two more.
  fuel_lem :
      (m : Method) (rest : List ℕ)
      → let n = length (print_head m path query one hs rest) in
        n + 2 ≡ suc (add_rounds hs (suc (suc (n - length hs - 1))))
  fuel_lem m rest = omega (
    arith,
    add_rounds-eq hs (suc (suc (length (print_head m path query one hs rest) - length hs - 1))),
    length-append (request_line m path query one) (crlf ++ header_lines hs rest),
    length-header_lines hs rest,
  )

  -- A printed GET request is parsed back, on the first call; what follows it is left in the buffer.
  pub parse_get :
      (rest : List ℕ)
      → parse_text new now (print_head Method.get path query one hs rest)
        ≡ parsed true
            (record { state = got_all; request = read_back Method.get path query one now hs })
            rest
  unfolding parse_text
  parse_get rest =
      rw (fuel_lem Method.get rest, head_lem Method.get _ rest refl)
        (line_round _ now _ [] rest tt ∙ unfold process_header_line end_of_headers find in refl)

  -- So is a printed POST request whose `Content-Length` is the length of the body: the body becomes
  -- the query.
  pub parse_post :
      (d : ℕ) (ds body rest : List ℕ)
      → get_header (read_back Method.post path query one now hs) (codes "Content-Length") ≡ d ∷ ds
      → stoi (d ∷ ds) ≡ some (pos (length body))
      → parse_text new now (print_head Method.post path query one hs (body ++ rest))
        ≡ parsed true
            (record {
              state = got_all;
              request = record (read_back Method.post path query one now hs) { query = body };
            })
            rest
  unfolding parse_text
  parse_post d ds body rest e n =
      rw (fuel_lem Method.post (body ++ rest), head_lem Method.post _ (body ++ rest) refl)
        (line_round _ now _ [] (body ++ rest) tt
          ∙ unfold process_header_line end_of_headers find text_loop text_step in
            rw (
              e,
              text_step,
              n,
              to_size_pos (length body),
              le→leb (length body) (length (body ++ rest)) (omega (arith, length-append body rest)),
              take-append_eq (length body) body rest refl,
              drop-append_eq (length body) body rest refl,
            ))
