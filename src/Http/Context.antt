-- ===== src/Http/Context.antt =====
-- pallette/http/HttpContext.h and HttpContext.cpp: the parser of a request, over a `Buffer`.
pub mod Lines
pub mod Text
pub mod RoundTrip
pub mod Rounds
pub mod Calls
pub mod Unfinished
pub mod Refine
use pallette.Base.{
  ℕ, zero, suc, ◌+◌, ◌-◌, ◌*◌, ◌^◌, Bool, true, false, not, ◌&&◌, ◌||◌, List, [], ◌∷◌, ◌++◌, Option,
  none, some,
}
use pallette.Base.Tests.{ltb, leb, ◌==◌, if◌then◌else◌}
use pallette.Base.Int.{ℤ, pos, negsuc}
use pallette.Base.Lists.{length, take, drop, get_elem?}
use pallette.Base.Text.{codes, find}
use pallette.Buffer.Slices.{slice, starts_with}
use pallette.Buffer.{
  Buffer, ◌>>=◌, peek, readable_bytes, retrieve, retrieve_until, find_sub_string, string_at,
}
use pallette.Http.Request.{
  HttpRequest, Method, Version, set_method, add_header, get_header, skip_spaces,
}
use pallette.Http.Request

pub data State : Type 0 where
  expect_request_line expect_headers expect_body got_all : State

pub record HttpContext : Type 0 where
  pub state : State
  pub request : HttpRequest

unfoldable pub new : HttpContext
new = record { state = expect_request_line; request = Request.new }

unfoldable pub got_all? : State → Bool
got_all? got_all = true
got_all? _ = false

-- `request_.swap(dummy)` with a fresh request.
unfoldable pub reset : HttpContext → HttpContext
reset c = record c { state = expect_request_line; request = Request.new }

unfoldable pub version_of : List ℕ → Option Version
version_of rest =
    if (length rest == 8) && starts_with rest (codes "HTTP/1.")
    then (elim (get_elem? rest 7) [
      | none ↦ none
      | some c ↦
          if c == b'1' then some Version.http11 else if c == b'0' then some Version.http10 else none
    ])
    else none

-- The end of the request line: `setVersion`, and whether it succeeded.
abbrev pub finish_line : HttpRequest → Option Version → Bool × HttpRequest
finish_line r none = (false, r)
finish_line r (some v) = (true, record r { version = v })

-- `question` is where the query begins, the question mark included.
abbrev pub set_target : HttpRequest → List ℕ → HttpRequest
set_target r target =
    let question = find b'?' target in
    if question == length target
    then record r { path = target }
    else record r { path = take question target; query = drop question target }

-- What follows the method: `rest` begins behind the first space.
unfoldable pub process_target : HttpRequest → List ℕ → Bool × HttpRequest
process_target r rest =
    let space = find b' ' rest in
    if space == length rest
    then (false, r)
    else finish_line (set_target r (take space rest)) (version_of (drop (suc space) rest))

-- `processRequestLine` on the bytes of the line; `none` is the failed assert of `setMethod`.
unfoldable pub process_request_line : HttpRequest → List ℕ → Option (Bool × HttpRequest)
process_request_line r line =
    let space = find b' ' line in
    if space == length line then some (false, r) else (do
      (known, r') ← set_method r (take space line)
      if known then some (process_target r' (drop (suc space) line)) else some (false, r'))

-- `std::stoi`: spaces, a sign, digits; it throws without a digit, or out of the range of `int`.
abbrev pub is_digit : ℕ → Bool
is_digit c = leb b'0' c && leb c b'9'

unfoldable pub digits_value : ℕ → List ℕ → ℕ
digits_value acc [] = acc
digits_value acc (c ∷ cs) =
    let rest = digits_value (acc * 10 + (c - b'0')) cs in if is_digit c then rest else acc

unfoldable pub signed : Bool → List ℕ → Option ℤ
signed minus [] = none
signed minus (c ∷ cs) =
    let n = digits_value 0 (c ∷ cs) in
    if is_digit c
    then (if minus
        then (if n == 0
            then some (pos 0)
            else if leb n (2 ^ 31)
            then some (negsuc (n - 1))
            else none)
        else (if ltb n (2 ^ 31) then some (pos n) else none))
    else none

abbrev pub after_sign : List ℕ → Option ℤ
after_sign [] = none
after_sign (c ∷ cs) =
    if c == b'-'
    then signed true cs
    else if c == b'+'
    then signed false cs
    else signed false (c ∷ cs)

unfoldable pub stoi : List ℕ → Option ℤ
stoi s = after_sign (skip_spaces s)

-- `static_cast<size_t>` of an `int`.
unfoldable pub to_size : ℤ → ℕ
to_size (pos n) = n
to_size (negsuc n) = 2 ^ 64 - suc n

-- One round of the loop: it goes on, it stops with what `parseRequest` returns, or `stoi` throws.
pub data Round {ℓ} (B : Type ℓ) : Type ℓ where
  more : HttpContext → B → Round B
  stop : Bool → HttpContext → B → Round B
  throws : Round B

abbrev pub crlf : List ℕ
crlf = 13 ∷ 10 ∷ []

-- Behind the processed request line; `end` is the position behind its line break.
pub request_line_done : HttpContext → ℕ → Buffer → ℕ → Bool × HttpRequest → Option (Round Buffer)
request_line_done c now b end (true, r) = do
  b' ← retrieve_until b end
  some (more (record { state = expect_headers; request = record r { receive_time = now } }) b')
request_line_done c now b end (false, r) = some (stop false (record c { request = r }) b)

pub on_request_line : HttpContext → ℕ → Buffer → Option ℕ → Option (Round Buffer)
unfolding request_line_done
on_request_line c now b none = some (stop true c b)
on_request_line c now b (some end) = do
  line ← slice b.buffer (peek b) (end - peek b)
  result ← process_request_line c.request line
  request_line_done c now b (end + 2) result

-- A line without a colon ends the headers: for GET the request is complete, for POST a body is
-- expected, and for another method the state stays.
unfoldable pub end_of_headers : HttpContext → Method → HttpContext × Bool
end_of_headers c Method.get = (record c { state = got_all }, false)
end_of_headers c Method.post = (record c { state = expect_body }, true)
end_of_headers c _ = (c, true)

-- The context after a header line, and `hasMore`.
unfoldable pub process_header_line : HttpContext → List ℕ → HttpContext × Bool
process_header_line c line =
    let colon = find b':' line in
    if colon == length line then end_of_headers c c.request.method else (
      record c { request = add_header c.request (take colon line) (drop (suc colon) line) },
      true,
    )

abbrev pub round_of {ℓ} : {B : Type ℓ} → HttpContext × Bool → B → Round B
round_of (c, true) b = more c b
round_of (c, false) b = stop true c b

pub on_header_line : HttpContext → Buffer → Option ℕ → Option (Round Buffer)
on_header_line c b none = some (stop true c b)
on_header_line c b (some end) = do
  line ← slice b.buffer (peek b) (end - peek b)
  b' ← retrieve_until b (end + 2)
  some (round_of (process_header_line c line) b')

pub on_length : HttpContext → Buffer → Option ℤ → Option (Round Buffer)
on_length c b none = some throws
on_length c b (some content_length) =
    if leb (to_size content_length) (readable_bytes b)
    then (do
      body ← string_at b (peek b) (to_size content_length)
      b' ← retrieve b (to_size content_length)
      some (stop true (record { state = got_all; request = record c.request { query = body } }) b'))
    else some (stop true c b)

pub on_body : HttpContext → Buffer → List ℕ → Option (Round Buffer)
unfolding on_length
on_body c b [] = some (stop true c b)
on_body c b (d ∷ ds) = on_length c b (stoi (d ∷ ds))

-- In the last state no branch of the loop is taken, and it goes round for ever.
pub step_in : State → HttpContext → ℕ → Buffer → Option (Round Buffer)
unfolding on_request_line on_header_line on_body
step_in expect_request_line c now b = do
  found ← find_sub_string b crlf (peek b)
  on_request_line c now b found
step_in expect_headers c now b = do
  found ← find_sub_string b crlf (peek b)
  on_header_line c b found
step_in expect_body c now b = on_body c b (get_header c.request (codes "Content-Length"))
step_in got_all c now b = some (more c b)

-- `fault` is a failed assert, `thrown` an exception of `stoi`, `running` a loop out of fuel.
pub data Parsed {ℓ} (B : Type ℓ) : Type ℓ where
  parsed : Bool → HttpContext → B → Parsed B
  fault thrown running : Parsed B

-- What the loop does after a round, given what it does with the rounds to come.
abbrev pub go_on {ℓ} : {B : Type ℓ} → (HttpContext → B → Parsed B) → Option (Round B) → Parsed B
go_on k none = fault
go_on k (some (more c b)) = k c b
go_on k (some (stop ok c b)) = parsed ok c b
go_on k (some throws) = thrown

pub loop : ℕ → HttpContext → ℕ → Buffer → Parsed Buffer
loop zero c now b = running
loop (suc fuel) c now b = go_on (λ c' b'. loop fuel c' now b') (step_in c.state c now b)

-- A round that goes on takes a line away, or leaves the headers for the body.
pub parse_request : HttpContext → ℕ → Buffer → Parsed Buffer
parse_request c now b = loop (readable_bytes b + 2) c now b
