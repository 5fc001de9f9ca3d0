-- ===== src/Http/Context/Calls.antt =====
-- What a call of `parseRequest` does, on a buffer that holds the bytes received so far.
use pallette.Base.{
  append_assoc, ℕ, suc, ◌+◌, ◌≡◌, refl, ap, subst, Bool, true, false, List, ◌∷◌, ◌++◌, Option, none,
  some, arith, ◌≢◌,
}
use pallette.Base.Int.{pos}
use pallette.Base.Lists.{length, take-append_eq, All-append}
use pallette.Base.Text.{codes}
use pallette.Buffer.{append}
use pallette.Buffer.Ops.{append_lem}
use pallette.Buffer.{append, Buffer}
use pallette.Buffer.Inv.{Holds}
use pallette.Http.Request.{HttpRequest, Method, get_header, set_method, is_invalid, method_string}
use pallette.Http.Request
use pallette.Http.Context.{
  expect_request_line, got_all, got_all?, HttpContext, crlf, new, Parsed, parsed, fault, thrown,
  running, process_request_line, process_target, parse_request, stoi,
}
use pallette.Http.Context.Text.{text_step, text_loop, parse_text}
use pallette.Http.Context.Lines.{
  Without, cut_line_lem, IsTarget, opened, find-split, not_end, drop-split, method-Without,
  method_of-method_string,
}
use pallette.Http.Context.RoundTrip.{
  Headers, AreHeaders, print_head, read_back, parse_get, parse_post,
}
use pallette.Http.Context.Rounds.{parse_text-ne-running}
use pallette.Http.Context.Refine.{Same, parse_request-Same}

-- The call returns `ok` and leaves the context `c` and the bytes `xs`.
abbrev pub Returns : Parsed Buffer → Bool → HttpContext → List ℕ → Type 0
Returns p ok c xs = (b' : Buffer) × (p ≡ parsed ok c b') × Holds b' xs

Same-Returns :
    (p : Parsed Buffer) (ok : Bool) (c : HttpContext) (xs : List ℕ)
    → Same p (parsed ok c xs)
    → Returns p ok c xs
Same-Returns (parsed ok c b) ok' c' xs t = (b, rw (t.0, t.1), t.2)
Same-Returns fault ok' c' xs t = elim t [ ]
Same-Returns thrown ok' c' xs t = elim t [ ]
Same-Returns running ok' c' xs t = elim t [ ]

Same-fault : (p : Parsed Buffer) → Same p fault → p ≡ fault
Same-fault (parsed ok c b) t = elim t [ ]
Same-fault fault t = refl
Same-fault thrown t = elim t [ ]
Same-fault running t = elim t [ ]

Same-ne-running : (p : Parsed Buffer) (q : Parsed (List ℕ)) → Same p q → q ≢ running → p ≢ running
Same-ne-running (parsed ok c b) q t h = λ e. cc
Same-ne-running fault q t h = λ e. cc
Same-ne-running thrown q t h = λ e. cc
Same-ne-running running running t h = absurd (h refl)
Same-ne-running running (parsed ok c xs) t h = elim t [ ]
Same-ne-running running fault t h = elim t [ ]
Same-ne-running running thrown t h = elim t [ ]

pub returns :
    (b : Buffer) (xs ys : List ℕ) (c c' : HttpContext) (now : ℕ) (ok : Bool)
    → Holds b xs
    → parse_text c now xs ≡ parsed ok c' ys
    → Returns (parse_request c now b) ok c' ys
returns b xs ys c c' now ok h e =
    Same-Returns _ ok c' ys
      (subst (Same (parse_request c now b)) e (parse_request-Same b xs c now h))

-- The loop ends on every input, unless the request was complete before the call.
pub parse_request-ne-running :
    (b : Buffer) (xs : List ℕ) (c : HttpContext) (now : ℕ)
    → Holds b xs
    → got_all? c.state ≡ false
    → parse_request c now b ≢ running
parse_request-ne-running b xs c now h g =
    Same-ne-running _ _ (parse_request-Same b xs c now h)
      (parse_text-ne-running c.state c now xs refl g)

-- A printed GET request is read in one call, and the bytes behind it stay in the buffer.
pub parse_request-get :
    (b : Buffer) (path : List ℕ) (query : Option (List ℕ)) (one : Bool) (hs : Headers) (now : ℕ)
    (rest : List ℕ)
    → IsTarget path query
    → AreHeaders hs
    → Holds b (print_head Method.get path query one hs rest)
    → Returns
        (parse_request new now b)
        true
        (record { state = got_all; request = read_back Method.get path query one now hs })
        rest
parse_request-get b path query one hs now rest t ok h =
    returns b _ rest new _ now true h (parse_get path query one hs now t ok rest)

-- A printed POST request whose `Content-Length` gives the length of the body is read in one call:
-- the body becomes the query, and the bytes behind it stay in the buffer.
pub parse_request-post :
    (b : Buffer) (path : List ℕ) (query : Option (List ℕ)) (one : Bool) (hs : Headers) (now d : ℕ)
    (ds body rest : List ℕ)
    → IsTarget path query
    → AreHeaders hs
    → get_header (read_back Method.post path query one now hs) (codes "Content-Length") ≡ d ∷ ds
    → stoi (d ∷ ds) ≡ some (pos (length body))
    → Holds b (print_head Method.post path query one hs (body ++ rest))
    → Returns
        (parse_request new now b)
        true
        (record {
          state = got_all;
          request = record (read_back Method.post path query one now hs) { query = body };
        })
        rest
parse_request-post b path query one hs now d ds body rest t ok e n h =
    returns b _ rest new _ now true h (parse_post path query one hs now t ok d ds body rest e n)

process_target-method :
    (r : HttpRequest) (rest : List ℕ) → (process_target r rest).1.method ≡ r.method
unfolding process_target
process_target-method r rest = ground arith

-- A request line with a known method, and behind its first space something that is refused.
module _ (m : Method) (target rest : List ℕ) (now : ℕ) (known : is_invalid m ≡ false)
    (clean : Without 13 target) (refused : (process_target (opened m) target).0 ≡ false) where
  abbrev bad_line : List ℕ
  bad_line = method_string m ++ b' ' ∷ target

  abbrev left_behind : HttpContext
  left_behind = record {
    state = expect_request_line;
    request = (process_target (opened m) target).1;
  }

  bad_line-eq :
      process_request_line (opened Method.invalid) bad_line
      ≡ some (false, (process_target (opened m) target).1)
  unfolding process_request_line set_method
  bad_line-eq =
      let word = (method-Without m).0 in
      rw
        (
          find-split b' ' (method_string m) target word,
          not_end b' ' (method_string m) target word,
          take-append_eq (length (method_string m)) (method_string m) (b' ' ∷ target) refl,
          drop-split b' ' (method_string m) target word,
          method_of-method_string m known,
          known,
        )
        (ap (λ ok. some (ok, (process_target (opened m) target).1)) refused)

  bad_line-Without : Without 13 bad_line
  bad_line-Without =
      All-append _ (method_string m) (b' ' ∷ target) (method-Without m).1 (refl, clean)

  first_call :
      parse_text new now (bad_line ++ (crlf ++ rest))
      ≡ parsed false left_behind (bad_line ++ (crlf ++ rest))
  unfolding parse_text new Request.new
  first_call = rw fuel_suc (
      unfold text_loop text_step in
      rw (cut_line_lem bad_line rest bad_line-Without, text_step, bad_line-eq))
    where
      fuel_suc :
          length (bad_line ++ (crlf ++ rest)) + 2 ≡ suc (length (bad_line ++ (crlf ++ rest)) + 1)
      fuel_suc = omega arith

  again : process_request_line left_behind.request bad_line ≡ none
  unfolding process_request_line set_method
  again =
      let word = (method-Without m).0 in
      rw (
        find-split b' ' (method_string m) target word,
        not_end b' ' (method_string m) target word,
        process_target-method (opened m) target,
        known,
      )

  second_call : (now' : ℕ) → parse_text left_behind now' (bad_line ++ (crlf ++ rest)) ≡ fault
  unfolding parse_text
  second_call now' = rw fuel_suc (
      unfold text_loop text_step in
      rw (cut_line_lem bad_line rest bad_line-Without, text_step, again))
    where
      fuel_suc :
          length (bad_line ++ (crlf ++ rest)) + 2 ≡ suc (length (bad_line ++ (crlf ++ rest)) + 1)
      fuel_suc = omega arith

pub refused_lem :
    (b : Buffer) (m : Method) (target rest extra : List ℕ) (now now' : ℕ)
    → is_invalid m ≡ false
    → Without 13 target
    → (process_target (opened m) target).0 ≡ false
    → Holds b (method_string m ++ (b' ' ∷ target) ++ (crlf ++ rest))
    → (c : HttpContext) × (b' : Buffer) × (b'' : Buffer) × (parse_request new now b
        ≡ parsed false c b')
      × (c.state ≡ expect_request_line)
      × Holds b' (method_string m ++ (b' ' ∷ target) ++ (crlf ++ rest))
      × (append b' extra ≡ some b'')
      × (parse_request c now' b'' ≡ fault)
refused_lem b m target rest extra now now' known clean refused h =
    let line = bad_line m target rest now known clean refused in
    let text = line ++ (crlf ++ rest) in
    let text' = line ++ (crlf ++ (rest ++ extra)) in
    let (b', e, h') =
      returns b text text new _ now false h (first_call m target rest now known clean refused) in
    let (b'', f, h'') = append_lem b' text extra h' in
    (
      left_behind m target rest now known clean refused,
      b',
      b'',
      e,
      refl,
      h',
      f,
      Same-fault _ (
          subst (Same _) (second_call m target (rest ++ extra) now known clean refused now')
            (parse_request-Same b'' text' _ now' (subst (Holds b'') (more line) h''))),
    )
  where
    more : (l : List ℕ) → (l ++ (crlf ++ rest)) ++ extra ≡ l ++ (crlf ++ (rest ++ extra))
    more l = append_assoc l (crlf ++ rest) extra
