-- ===== src/Http/Server/Answers.antt =====
-- A request is answered with the callback's response, and the next one can follow.
use pallette.Base.{
  ℕ, ◌≡◌, refl, ap, ◌∙◌, Bool, true, false, List, [], ◌∷◌, ◌++◌, Option, none, some,
}
use pallette.Base.Tests.{if◌then◌else◌}
use pallette.Base.Lists.{length}
use pallette.Base.Text.{codes}
use pallette.Buffer.{Buffer, append, ◌>>=◌, retrieve_all_as_string}
use pallette.Buffer
use pallette.Buffer.Inv.{Holds, new-Holds}
use pallette.Buffer.Reads.{retrieve_all_as_string_lem}
use pallette.Http.Request.{HttpRequest, Method, is_invalid, method_string}
use pallette.Http.Context.{
  HttpContext, got_all, got_all?, reset, parse_request, parsed, Parsed, fault, process_target, crlf,
  expect_request_line,
}
use pallette.Http.Context
use pallette.Http.Context.Lines.{Without, IsTarget, opened}
use pallette.Http.Context.RoundTrip.{Headers, AreHeaders, print_head, read_back}
use pallette.Http.Context.Calls.{parse_request-get, refused_lem}
use pallette.Http.Response.{HttpResponse, append_to_buffer, code_of}
use pallette.Http.Response
use pallette.Http.Response.Head.{Prints, response_text}
use pallette.Http.Response.Reader.{append_to_buffer-Appends}
use pallette.Http.Server.{Call, sends, shuts_down, closes, on_request, on_message, answer, refusal}

module _ (decimal : ℕ → List ℕ) (http_callback : HttpRequest → HttpResponse → HttpResponse)
    (req : HttpRequest) where
  abbrev pub response_to : HttpResponse
  response_to = http_callback req (Response.new (closes req))

  on_request_lem :
      response_to.close_connection ≡ false
      → Prints decimal (code_of response_to.status_code)
      → Prints decimal (length response_to.body)
      → on_request decimal http_callback req ≡ some (sends (response_text decimal response_to) ∷ [])
  unfolding on_request
  on_request_lem open_ code size =
      let (b, e, h) =
        append_to_buffer-Appends decimal response_to open_ code size (Buffer.new 1024) []
          (new-Holds 1024) in
      let t = response_text decimal response_to in
      let (b', f, k) = retrieve_all_as_string_lem b t h in
      rw (e, f) (ap (λ c. some (sends t ∷ (if c then shuts_down ∷ [] else []))) open_)

got-answer :
    (decimal : ℕ → List ℕ) (http_callback : HttpRequest → HttpResponse → HttpResponse)
    (req : HttpRequest) (b : Buffer) (calls : List Call)
    → on_request decimal http_callback req ≡ some calls
    → answer decimal http_callback (parsed true (record { state = got_all; request = req }) b)
      ≡ some (Context.new, b, calls)
unfolding got_all? reset Context.new
got-answer decimal http_callback req b calls e =
    ap (λ o. o >>= λ calls. some (Context.new, b, calls)) e

-- A GET request is printed into the buffer of a connection, and the callback makes a response that
-- keeps the connection open and whose numbers are printed in full. Then one message makes the server
-- send one text and nothing else: `HTTP/1.1 `, the status code and its message with no space between
-- them, the lines of Content-Length with the length of the body, of Keep-Alive and of the headers in
-- order, each ended by a carriage return and a line feed, an empty line, and the body. The context
-- is as for a new connection, and what follows the request stays in the buffer.
pub on_message-get :
    (decimal : ℕ → List ℕ) (http_callback : HttpRequest → HttpResponse → HttpResponse) (b : Buffer)
    (path : List ℕ) (query : Option (List ℕ)) (one : Bool) (hs : Headers) (now : ℕ) (rest : List ℕ)
    → IsTarget path query
    → AreHeaders hs
    → Holds b (print_head Method.get path query one hs rest)
    → let r = response_to decimal http_callback (read_back Method.get path query one now hs) in
      r.close_connection ≡ false
      → Prints decimal (code_of r.status_code)
      → Prints decimal (length r.body)
      → (b' : Buffer) × (on_message decimal http_callback Context.new now b
          ≡ some (Context.new, b', sends (response_text decimal r) ∷ []))
        × Holds b' rest
unfolding on_message
on_message-get decimal http_callback b path query one hs now rest target ok h open_ code size =
    let req = read_back Method.get path query one now hs in
    let (b', e, k) = parse_request-get b path query one hs now rest target ok h in
    (
      b',
      ap (answer decimal http_callback) e
          ∙ got-answer decimal http_callback req b'
              (sends (response_text decimal (response_to decimal http_callback req)) ∷ [])
              (on_request_lem decimal http_callback req open_ code size),
      k,
    )

not_got :
    (decimal : ℕ → List ℕ) (http_callback : HttpRequest → HttpResponse → HttpResponse)
    (c : HttpContext) (b : Buffer)
    → c.state ≡ expect_request_line
    → answer decimal http_callback (parsed false c b)
      ≡ some (c, b, refusal decimal http_callback false)
unfolding got_all?
not_got decimal http_callback c b e = rw e refl

-- A request line with a known method that is refused is answered with the status 400, and the
-- connection is shut down for writing. The line and what follows it stay in the buffer. When any
-- bytes arrive behind them, or none, the next message on the connection fails an assert and is not
-- answered.
pub on_message_refused :
    (decimal : ℕ → List ℕ) (http_callback : HttpRequest → HttpResponse → HttpResponse) (b : Buffer)
    (m : Method) (target rest extra : List ℕ) (now now' : ℕ)
    → is_invalid m ≡ false
    → Without 13 target
    → (process_target (opened m) target).0 ≡ false
    → Holds b (method_string m ++ (b' ' ∷ target) ++ (crlf ++ rest))
    → (c : HttpContext) × (b' : Buffer) × (b'' : Buffer) × (on_message decimal http_callback
          Context.new now b
        ≡ some
            (c, b', sends (codes "HTTP/1.1 400 Bad Request" ++ (crlf ++ crlf)) ∷ (shuts_down ∷ [])))
      × Holds b' (method_string m ++ (b' ' ∷ target) ++ (crlf ++ rest))
      × (append b' extra ≡ some b'')
      × (parse_request c now' b'' ≡ fault)
      × (on_message decimal http_callback c now' b'' ≡ none)
unfolding on_message
on_message_refused decimal http_callback b m target rest extra now now' known clean refused h =
    let (c, b', b'', e, s, k, g, f) =
      refused_lem b m target rest extra now now' known clean refused h in
    (
      c,
      b',
      b'',
      ap (answer decimal http_callback) e ∙ not_got decimal http_callback c b' s,
      k,
      g,
      f,
      ap (answer decimal http_callback) f,
    )
