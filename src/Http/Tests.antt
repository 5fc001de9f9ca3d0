-- ===== src/Http/Tests.antt =====
-- Requests on the wire, and the theorems about the parser at them.
use pallette.Base.{ℕ, refl, List, [], ◌∷◌, ◌++◌, some, arith, true, ◌≢◌}
use pallette.Base.Text.{codes, lookup, insert, str_eq, str_less}
use pallette.Buffer.Samples.{wire, wire-Holds}
use pallette.Http.Request.{Method, skip_spaces, trim_end, keep_unless_space, get_header}
use pallette.Http.Context.{
  HttpContext, expect_headers, got_all, got_all?, new, parse_request, running, crlf, stoi, signed,
  digits_value,
}
use pallette.Http.Context.Lines.{IsTarget, opened}
use pallette.Http.Context.RoundTrip.{Headers, AreHeaders, print_head, read_back}
use pallette.Http.Context.Text.{parse_text}
use pallette.Http.Context.Refine.{Same, parse_request-Same}
use pallette.Http.Context.Calls.{
  Returns, parse_request-ne-running, parse_request-get, parse_request-post,
}

abbrev headers : Headers
headers = (codes "Host", codes "a.org") ∷ ((codes "Content-Length", codes "3") ∷ [])

headers-AreHeaders : AreHeaders headers
unfolding skip_spaces trim_end keep_unless_space
headers-AreHeaders = (
  record { field_ok = ground arith; value_ok = ground arith; trimmed = (refl, refl) },
  (record { field_ok = ground arith; value_ok = ground arith; trimmed = (refl, refl) }, tt),
)

index-IsTarget : IsTarget (codes "/index") (some (codes "k=v"))
index-IsTarget = record { path_ok = ground arith; query_ok = ground arith }

abbrev request : Method → List ℕ → List ℕ
request m rest = print_head m (codes "/index") (some (codes "k=v")) true headers rest

parse_request-get_example :
    Returns
      (parse_request new 5 (wire (request Method.get (codes "more"))))
      true
      (record {
        state = got_all;
        request = read_back Method.get (codes "/index") (some (codes "k=v")) true 5 headers;
      })
      (codes "more")
parse_request-get_example =
    parse_request-get (wire (request Method.get (codes "more"))) (codes "/index")
      (some (codes "k=v")) true headers 5 (codes "more") index-IsTarget headers-AreHeaders
      (wire-Holds (request Method.get (codes "more")))

parse_request-post_example :
    Returns
      (parse_request new 5 (wire (request Method.post (codes "abcmore"))))
      true
      (record {
        state = got_all;
        request =
            record (read_back Method.post (codes "/index") (some (codes "k=v")) true 5 headers) {
              query = codes "abc";
            };
      })
      (codes "more")
unfolding get_header lookup insert str_eq str_less stoi skip_spaces signed digits_value
parse_request-post_example =
    parse_request-post (wire (request Method.post (codes "abcmore"))) (codes "/index")
      (some (codes "k=v")) true headers 5 b'3' [] (codes "abc") (codes "more") index-IsTarget
      headers-AreHeaders refl refl (wire-Holds (request Method.post (codes "abcmore")))

parse_request-Same_example :
    Same (parse_request new 5 (wire (codes "GET"))) (parse_text new 5 (codes "GET"))
parse_request-Same_example =
    parse_request-Same (wire (codes "GET")) (codes "GET") new 5 (wire-Holds (codes "GET"))

parse_request-ne-running_example : parse_request new 5 (wire (codes "GET")) ≢ running
unfolding new got_all?
parse_request-ne-running_example =
    parse_request-ne-running (wire (codes "GET")) (codes "GET") new 5 (wire-Holds (codes "GET"))
      refl

abbrev bad_request : List ℕ
bad_request = codes "GET" ++ (b' ' ∷ codes "/ HTTP/2.0") ++ (crlf ++ [])

abbrev put_context : HttpContext
put_context = record { state = expect_headers; request = opened Method.put }
