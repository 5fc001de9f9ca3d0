-- ===== src/Http/Server.antt =====
-- pallette/http/HttpServer.cpp. A connection is what the server asks of it, in order; the callback
-- of the user and what `snprintf` prints of a number are arguments. `none` is a failed assert, an
-- exception of `stoi`, or a loop that does not end.
pub mod Answers
mod Tests
use pallette.Base.{ℕ, Bool, true, false, not, ◌&&◌, ◌||◌, List, [], ◌∷◌, ◌++◌, Option, none, some}
use pallette.Base.Tests.{if◌then◌else◌}
use pallette.Base.Text.{codes, str_eq}
use pallette.Buffer.{Buffer, ◌>>=◌, retrieve_all_as_string}
use pallette.Buffer
use pallette.Http.Request.{HttpRequest, Version, get_header}
use pallette.Http.Context.{
  HttpContext, got_all?, reset, Parsed, parsed, fault, thrown, running, parse_request, crlf,
}
use pallette.Http.Context
use pallette.Http.Response.{HttpResponse, StatusCode, append_to_buffer}
use pallette.Http.Response

pub data Call : Type 0 where
  sends : List ℕ → Call
  shuts_down : Call

abbrev pub default_http_callback : HttpRequest → HttpResponse → HttpResponse
default_http_callback req resp = record resp {
  status_code = StatusCode.not_found;
  status_message = codes "Not Found";
  close_connection = true;
}

-- `kInitalSize`.
abbrev initial_size : ℕ
initial_size = 1024

-- The context of a new connection.
abbrev pub on_connection : Bool → Option HttpContext → Option HttpContext
on_connection connected context = if connected then some Context.new else context

abbrev pub is_http10 : Version → Bool
is_http10 Version.http10 = true
is_http10 _ = false

abbrev pub closes : HttpRequest → Bool
closes req =
    str_eq (get_header req (codes "Connection")) (codes "close")
    || (is_http10 req.version
        && not (str_eq (get_header req (codes "Connection")) (codes "Keep-Alive")))

module _ (decimal : ℕ → List ℕ) (http_callback : HttpRequest → HttpResponse → HttpResponse) where
  pub on_request : HttpRequest → Option (List Call)
  on_request req =
      let response = http_callback req (Response.new (closes req)) in
      append_to_buffer decimal response (Buffer.new initial_size) >>= λ b.
      (retrieve_all_as_string b >>= λ r.
      some (sends r.0 ∷ (if response.close_connection then shuts_down ∷ [] else [])))

  abbrev pub refusal : Bool → List Call
  refusal true = []
  refusal false = sends (codes "HTTP/1.1 400 Bad Request" ++ (crlf ++ crlf)) ∷ (shuts_down ∷ [])

  abbrev pub answer : Parsed Buffer → Option (HttpContext × Buffer × List Call)
  answer (parsed ok c b) =
      if got_all? c.state
      then (on_request c.request >>= λ calls. some (reset c, b, refusal ok ++ calls))
      else some (c, b, refusal ok)
  answer fault = none
  answer thrown = none
  answer running = none

  pub on_message : HttpContext → ℕ → Buffer → Option (HttpContext × Buffer × List Call)
  on_message c now b = answer (parse_request c now b)
