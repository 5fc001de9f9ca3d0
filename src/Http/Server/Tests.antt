-- ===== src/Http/Server/Tests.antt =====
-- A server that answers every request with one page.
use pallette.Base.{ℕ, ◌≡◌, refl, true, List, [], ◌∷◌, ◌++◌, none, some, arith}
use pallette.Base.Text.{codes, find}
use pallette.Buffer.{Buffer, append}
use pallette.Buffer.Slices.{starts_with}
use pallette.Buffer.Samples.{wire, wire-Holds}
use pallette.Buffer.Inv.{Holds}
use pallette.Http.Request.{HttpRequest, Method}
use pallette.Http.Request
use pallette.Http.Context.{HttpContext, crlf, process_target, version_of, parse_request, fault}
use pallette.Http.Context
use pallette.Http.Context.Lines.{IsTarget}
use pallette.Http.Context.RoundTrip.{print_head}
use pallette.Http.Response.{HttpResponse}
use pallette.Http.Response.Samples.{decimal, page, code-Prints, size-Prints}
use pallette.Http.Response.Head.{response_text}
use pallette.Http.Server.{sends, shuts_down, on_message}
use pallette.Http.Server.Answers.{on_message-get, on_message_refused}

abbrev serve_page : HttpRequest → HttpResponse → HttpResponse
serve_page req resp = page

root-IsTarget : IsTarget (codes "/") none
root-IsTarget = record { path_ok = ground arith; query_ok = ground arith }

abbrev two_requests : List ℕ
two_requests =
    print_head Method.get (codes "/") none true []
      (print_head Method.get (codes "/") none true [] [])

-- The second of two requests that arrive together is not answered.
on_message-get_example :
    (b' : Buffer) × (on_message decimal serve_page Context.new 5 (wire two_requests)
      ≡ some (Context.new, b', sends (response_text decimal page) ∷ []))
    × Holds b' (print_head Method.get (codes "/") none true [] [])
on_message-get_example =
    on_message-get decimal serve_page (wire two_requests) (codes "/") none true [] 5
      (print_head Method.get (codes "/") none true [] []) root-IsTarget tt (wire-Holds two_requests)
      refl code-Prints size-Prints

abbrev bad_request : List ℕ
bad_request = codes "GET" ++ (b' ' ∷ codes "/ HTTP/2.0") ++ (crlf ++ [])

on_message_refused_example :
    (c : HttpContext) × (b' : Buffer) × (b'' : Buffer) × (on_message decimal serve_page Context.new
        5
        (wire bad_request)
      ≡ some
          (c, b', sends (codes "HTTP/1.1 400 Bad Request" ++ (crlf ++ crlf)) ∷ (shuts_down ∷ [])))
    × Holds b' bad_request
    × (append b' (codes "GET /") ≡ some b'')
    × (parse_request c 6 b'' ≡ fault)
    × (on_message decimal serve_page c 6 b'' ≡ none)
unfolding process_target version_of starts_with find Request.method_string
on_message_refused_example =
    on_message_refused decimal serve_page (wire bad_request) Method.get (codes "/ HTTP/2.0") []
      (codes "GET /") 5 6 refl (ground arith) refl (wire-Holds bad_request)
