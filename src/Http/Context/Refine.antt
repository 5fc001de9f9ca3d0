-- ===== src/Http/Context/Refine.antt =====
-- `parseRequest` on a buffer does what the parser does on the bytes that the buffer holds.
use pallette.Base.{
  ℕ, zero, suc, ◌+◌, ◌-◌, ◌≡◌, refl, sym, ◌∙◌, subst, Bool, true, false, List, [], ◌∷◌, ◌++◌,
  Option, none, some, arith, inl, inr, append_assoc,
}
use pallette.Base.Tests.{leb, Bool-cases, leb→le}
use pallette.Base.Int.{ℤ}
use pallette.Base.Lists.{length, take, drop, length-append, length-take, take-append-drop}
use pallette.Base.Text.{codes}
use pallette.Buffer.Slices.{slice, memmem}
use pallette.Buffer.{Buffer, ◌>>=◌, peek, retrieve_until, retrieve, string_at}
use pallette.Buffer.Inv.{Holds}
use pallette.Buffer.Reads.{
  retrieve_until_lem, retrieve_lem, slice-Holds, string_at_lem, readable_bytes-Holds,
}
use pallette.Buffer.Search.{find_sub_string_lem, memmem-split, memmem-lt}
use pallette.Http.Request.{HttpRequest, get_header}
use pallette.Http.Context.{
  State, expect_request_line, expect_headers, expect_body, got_all, HttpContext, Round, more, stop,
  throws, crlf, process_request_line, process_header_line, round_of, stoi, to_size, Parsed, parsed,
  fault, thrown, running, request_line_done, on_request_line, on_header_line, on_length, on_body,
  step_in, loop, parse_request, go_on,
}
use pallette.Http.Context.Text.{
  cut_line, request_line_text, body_text, text_step, text_loop, parse_text,
}
use mathlib.Core.Option

-- The same round, and the buffer that is left holds the bytes that are left.
abbrev SameRound : Round Buffer → Round (List ℕ) → Type 0
SameRound (more c b) (more c' xs) = (c ≡ c') × Holds b xs
SameRound (stop ok c b) (stop ok' c' xs) = (ok ≡ ok') × (c ≡ c') × Holds b xs
SameRound throws throws = Unit {0}
SameRound _ _ = ⊥

abbrev SameStep : Option (Round Buffer) → Option (Round (List ℕ)) → Type 0
SameStep none none = Unit {0}
SameStep (some r) (some s) = SameRound r s
SameStep _ _ = ⊥

-- The same result, and the buffer that is left holds the bytes that are left.
abbrev pub Same : Parsed Buffer → Parsed (List ℕ) → Type 0
Same (parsed ok c b) (parsed ok' c' xs) = (ok ≡ ok') × (c ≡ c') × Holds b xs
Same fault fault = Unit {0}
Same thrown thrown = Unit {0}
Same running running = Unit {0}
Same _ _ = ⊥

-- A line that ends at offset `k`, in the buffer and in the text.
module _ (b : Buffer) (xs : List ℕ) (h : Holds b xs) (k : ℕ) (e : memmem xs crlf ≡ some k) where
  line : List ℕ
  line = take k xs

  rest : List ℕ
  rest = drop (k + 2) xs

  split : xs ≡ line ++ (crlf ++ rest)
  unfolding line rest
  split = memmem-split xs 13 (10 ∷ []) k e

  length-line : length line ≡ k
  unfolding line
  length-line = omega (arith, length-take k xs, memmem-lt xs 13 (10 ∷ []) k e)

  slice-line : slice b.buffer (peek b) (peek b + k - peek b) ≡ some line
  slice-line =
      let gap : b.read_index + k - b.read_index ≡ k = omega arith in
      rw gap (slice-Holds b line (crlf ++ rest) k length-line (subst (Holds b) split h))

  retrieve_line : (b' : Buffer) × (retrieve_until b (peek b + k + 2) ≡ some b') × Holds b' rest
  retrieve_line =
      retrieve_until_lem b (line ++ crlf) rest (b.read_index + k + 2)
        (subst (Holds b) (split ∙ sym (append_assoc line crlf rest)) h)
        (omega (arith, length-append line crlf))
        (omega (arith, length-append line crlf, length-line))

  cut_line-eq : cut_line xs ≡ some (line, rest)
  unfolding cut_line line rest
  cut_line-eq = rw (e, cut_line)

  request_line_same :
      (c : HttpContext) (now : ℕ)
      → SameStep
          (on_request_line c now b (some (peek b + k)))
          (text_step expect_request_line c now xs)
  unfolding on_request_line text_step
  request_line_same c now =
      rw (slice-line, cut_line-eq, text_step) (done (process_request_line c.request line))
    where
      done :
          (r : Option (Bool × HttpRequest))
          → SameStep
              (r >>= request_line_done c now b (peek b + k + 2))
              (request_line_text c now xs rest r)
      done none = tt
      done (some (true, r)) =
          let (b', t, k') = retrieve_line in rw (t, request_line_done) (refl, k')
      done (some (false, r)) = (refl, refl, h)

  header_line_same :
      (c : HttpContext) (now : ℕ)
      → SameStep (on_header_line c b (some (peek b + k))) (text_step expect_headers c now xs)
  unfolding on_header_line text_step
  header_line_same c now =
      let (b', t, k') = retrieve_line in
      rw (slice-line, t, cut_line-eq, text_step) (done (process_header_line c line) b' k')
    where
      done :
          (r : HttpContext × Bool) (b' : Buffer)
          → Holds b' rest
          → SameRound (round_of r b') (round_of r rest)
      done (c', true) b' k' = (refl, k')
      done (c', false) b' k' = (refl, refl, k')

no_line : (xs : List ℕ) → memmem xs crlf ≡ none → cut_line xs ≡ none
unfolding cut_line
no_line xs e = rw (e, cut_line)

body_same :
    (b : Buffer) (xs : List ℕ) (h : Holds b xs) (c : HttpContext) (n : Option ℤ)
    → SameStep (on_length c b n) (body_text c xs n)
unfolding on_length
body_same b xs h c none = tt
body_same b xs h c (some n) =
    rw (readable_bytes-Holds b xs h) (elim (Bool-cases (leb (to_size n) (length xs))) [
      | inl enough ↦ let (b', t, k') = taken enough in rw (enough, whole enough, t) (refl, refl, k')
      | inr short ↦ rw short (refl, refl, h)
    ])
  where
    length-front : leb (to_size n) (length xs) ≡ true → length (take (to_size n) xs) ≡ to_size n
    length-front e = omega (arith, length-take (to_size n) xs, leb→le _ _ e)

    split : Holds b (take (to_size n) xs ++ drop (to_size n) xs)
    split = subst (Holds b) (sym (take-append-drop (to_size n) xs)) h

    whole :
        leb (to_size n) (length xs) ≡ true
        → string_at b (peek b) (to_size n) ≡ some (take (to_size n) xs)
    whole e =
        subst (λ k. string_at b (peek b) k ≡ some (take (to_size n) xs)) (length-front e)
          (string_at_lem b (take (to_size n) xs) (drop (to_size n) xs) split)

    taken :
        leb (to_size n) (length xs) ≡ true
        → (b' : Buffer) × (retrieve b (to_size n) ≡ some b') × Holds b' (drop (to_size n) xs)
    taken e =
        subst (λ k. (b' : Buffer) × (retrieve b k ≡ some b') × Holds b' (drop (to_size n) xs))
          (length-front e) (retrieve_lem b (take (to_size n) xs) (drop (to_size n) xs) split)

step_same :
    (b : Buffer) (xs : List ℕ) (h : Holds b xs) (s : State) (c : HttpContext) (now : ℕ)
    → SameStep (step_in s c now b) (text_step s c now xs)
unfolding step_in text_step
step_same b xs h expect_request_line c now =
    rw (find_sub_string_lem b xs 13 (10 ∷ []) h) (found (memmem xs crlf) refl)
  where
    found :
        (r : Option ℕ)
        → memmem xs crlf ≡ r
        → SameStep
            (on_request_line c now b (Option.map (λ k. peek b + k) r))
            (text_step expect_request_line c now xs)
    found none e = rw (no_line xs e, on_request_line, text_step) (refl, refl, h)
    found (some k) e = request_line_same b xs h k e c now
step_same b xs h expect_headers c now =
    rw (find_sub_string_lem b xs 13 (10 ∷ []) h) (found (memmem xs crlf) refl)
  where
    found :
        (r : Option ℕ)
        → memmem xs crlf ≡ r
        → SameStep
            (on_header_line c b (Option.map (λ k. peek b + k) r))
            (text_step expect_headers c now xs)
    found none e = rw (no_line xs e, on_header_line, text_step) (refl, refl, h)
    found (some k) e = header_line_same b xs h k e c now
step_same b xs h expect_body c now = body (get_header c.request (codes "Content-Length")) refl
  where
    body :
        (v : List ℕ)
        → get_header c.request (codes "Content-Length") ≡ v
        → SameStep (on_body c b v) (text_step expect_body c now xs)
    body [] e = rw (e, on_body, text_step) (refl, refl, h)
    body (d ∷ ds) e = rw (e, on_body, text_step) (body_same b xs h c (stoi (d ∷ ds)))
step_same b xs h got_all c now = (refl, h)

go_on-Same :
    (k : HttpContext → Buffer → Parsed Buffer) (k' : HttpContext → List ℕ → Parsed (List ℕ))
    → ((c : HttpContext) (b : Buffer) (xs : List ℕ) → Holds b xs → Same (k c b) (k' c xs))
    → (r : Option (Round Buffer)) (s : Option (Round (List ℕ))) → SameStep r s
    → Same (go_on k r) (go_on k' s)
go_on-Same k k' f none none t = tt
go_on-Same k k' f none (some s) t = elim t [ ]
go_on-Same k k' f (some r) none t = elim t [ ]
go_on-Same k k' f (some (more c b)) (some (more c' xs)) t = rw t.0 (f c' b xs t.1)
go_on-Same k k' f (some (stop ok c b)) (some (stop ok' c' xs)) t = t
go_on-Same k k' f (some throws) (some throws) t = tt
go_on-Same k k' f (some _) (some _) t = elim t [ ]

loop-Same :
    (fuel : ℕ) (now : ℕ) (c : HttpContext) (b : Buffer) (xs : List ℕ)
    → Holds b xs
    → Same (loop fuel c now b) (text_loop fuel c now xs)
unfolding loop text_loop
loop-Same zero now c b xs h = tt
loop-Same (suc fuel) now c b xs h =
    go_on-Same _ _ (loop-Same fuel now) _ _ (step_same b xs h c.state c now)

-- On a buffer that holds `xs`, the parser gives the same answer and the same context as on `xs`,
-- and leaves a buffer that holds the bytes that are left.
pub parse_request-Same :
    (b : Buffer) (xs : List ℕ) (c : HttpContext) (now : ℕ)
    → Holds b xs
    → Same (parse_request c now b) (parse_text c now xs)
unfolding parse_request parse_text
parse_request-Same b xs c now h =
    rw (readable_bytes-Holds b xs h) (loop-Same (length xs + 2) now c b xs h)
