-- ===== src/Http/Context/Rounds.antt =====
-- How the loop of `parseRequest` ends: that it does, and the calls that never complete a request.
use pallette.Base.{
  ℕ, zero, suc, ◌+◌, ◌≤◌, ◌<◌, ◌≡◌, refl, ap, ◌∙◌, Bool, true, false, List, [], ◌∷◌, Option, none,
  some, arith, ◌≢◌, ◌⊎◌, inl, inr,
}
use pallette.Base.Tests.{leb, Bool-cases, ◌==◌, some_inj}
use pallette.Base.Int.{ℤ}
use pallette.Base.Lists.{length, take, drop, length-drop}
use pallette.Base.Text.{codes, find}
use pallette.Buffer.Slices.{memmem}
use pallette.Buffer.Search.{memmem-lt}
use pallette.Http.Request.{HttpRequest, Method, get_header}
use pallette.Http.Context.{
  State, expect_request_line, expect_headers, expect_body, got_all, got_all?, HttpContext, crlf,
  Round, more, stop, throws, Parsed, running, go_on, process_request_line, process_header_line,
  round_of, end_of_headers, stoi, to_size,
}
use pallette.Http.Context.Text.{
  cut_line, text_step, text_loop, parse_text, request_line_text, body_text,
}

-- Rounds that are enough from a state, on `n` bytes.
abbrev Enough : State → ℕ → ℕ → Type 0
Enough expect_request_line n fuel = n + 2 ≤ fuel
Enough expect_headers n fuel = n + 2 ≤ fuel
Enough expect_body n fuel = 1 ≤ fuel
Enough got_all n fuel = ⊥

-- A round that goes on leaves fewer bytes, or goes to the body.
abbrev Falls : ℕ → Option (Round (List ℕ)) → Type 0
Falls n (some (more c xs)) =
    ((c.state ≡ expect_headers) × (length xs < n)) ⊎ (c.state ≡ expect_body)
Falls n _ = Unit {0}

abbrev Stops : Option (Round (List ℕ)) → Type 0
Stops (some (more c xs)) = ⊥
Stops _ = Unit {0}

pub cut_line-lt :
    (xs line rest : List ℕ) → cut_line xs ≡ some (line, rest) → length rest < length xs
unfolding cut_line
cut_line-lt xs line rest e = by_offset (memmem xs crlf) refl
  where
    by_offset : (r : Option ℕ) → memmem xs crlf ≡ r → length rest < length xs
    by_offset none e' = let f = rw (e', cut_line) at e in cc
    by_offset (some k) e' =
        let same : (take k xs, drop (k + 2) xs) ≡ (line, rest) =
          some_inj (rw (e', cut_line) at e) in
        omega (
          arith,
          ap (λ (p : List ℕ × List ℕ). length p.1) same,
          length-drop (k + 2) xs,
          memmem-lt xs 13 (10 ∷ []) k e',
        )

request_line-Falls :
    (c : HttpContext) (now : ℕ) (xs rest : List ℕ) (r : Option (Bool × HttpRequest))
    → length rest < length xs
    → Falls (length xs) (request_line_text c now xs rest r)
request_line-Falls c now xs rest none h = tt
request_line-Falls c now xs rest (some (true, r)) h = inl (refl, h)
request_line-Falls c now xs rest (some (false, r)) h = tt

-- After a header line the parser is where it was, or goes to the body.
end_of_headers-state :
    (c : HttpContext) (m : Method)
    → (end_of_headers c m).1 ≡ true
    → ((end_of_headers c m).0.state ≡ c.state) ⊎ ((end_of_headers c m).0.state ≡ expect_body)
unfolding end_of_headers
end_of_headers-state c Method.get e = cc
end_of_headers-state c Method.post e = inr refl
end_of_headers-state c _ e = inl refl

header_line-state :
    (c : HttpContext) (line : List ℕ)
    → (process_header_line c line).1 ≡ true
    → ((process_header_line c line).0.state ≡ c.state)
      ⊎ ((process_header_line c line).0.state ≡ expect_body)
header_line-state c line = elim (Bool-cases (find b':' line == length line)) [
  | inl last ↦ unfold process_header_line in rw last (end_of_headers-state c c.request.method)
  | inr inner ↦ unfold process_header_line in rw inner (λ e. inl refl)
]

round_of-Falls :
    (n : ℕ) (r : HttpContext × Bool) (rest : List ℕ)
    → length rest < n
    → (r.1 ≡ true → (r.0.state ≡ expect_headers) ⊎ (r.0.state ≡ expect_body))
    → Falls n (some (round_of r rest))
round_of-Falls n (c, false) rest h f = tt
round_of-Falls n (c, true) rest h f = elim (f refl) [ inl e ↦ inl (e, h) | inr e ↦ inr e ]

body_text-Stops : (c : HttpContext) (xs : List ℕ) (n : Option ℤ) → Stops (body_text c xs n)
body_text-Stops c xs none = tt
body_text-Stops c xs (some n) = elim (Bool-cases (leb (to_size n) (length xs))) [
  | inl e ↦ rw e tt
  | inr e ↦ rw e tt
]

-- In the body no round goes on.
body_Stops : (c : HttpContext) (now : ℕ) (xs : List ℕ) → Stops (text_step expect_body c now xs)
unfolding text_step
body_Stops c now xs = by_length (get_header c.request (codes "Content-Length")) refl
  where
    by_length :
        (v : List ℕ)
        → get_header c.request (codes "Content-Length") ≡ v
        → Stops (text_step expect_body c now xs)
    by_length [] e' = rw (e', text_step) tt
    by_length (d ∷ ds) e' = rw (e', text_step) (body_text-Stops c xs (stoi (d ∷ ds)))

abbrev InLines : State → Type 0
InLines expect_request_line = Unit {0}
InLines expect_headers = Unit {0}
InLines _ = ⊥

step-Falls :
    (s : State) (c : HttpContext) (now : ℕ) (xs : List ℕ)
    → c.state ≡ s
    → InLines s
    → Falls (length xs) (text_step s c now xs)
unfolding text_step
step-Falls expect_request_line c now xs e g = by_line (cut_line xs) refl
  where
    by_line :
        (r : Option (List ℕ × List ℕ))
        → cut_line xs ≡ r
        → Falls (length xs) (text_step expect_request_line c now xs)
    by_line none e' = rw (e', text_step) tt
    by_line (some (line, rest)) e' =
        rw (e', text_step)
          (request_line-Falls c now xs rest (process_request_line c.request line)
            (cut_line-lt xs line rest e'))
step-Falls expect_headers c now xs e g = by_line (cut_line xs) refl
  where
    by_line :
        (r : Option (List ℕ × List ℕ))
        → cut_line xs ≡ r
        → Falls (length xs) (text_step expect_headers c now xs)
    by_line none e' = rw (e', text_step) tt
    by_line (some (line, rest)) e' =
        rw (e', text_step)
          (round_of-Falls (length xs) (process_header_line c line) rest
            (cut_line-lt xs line rest e')
            (λ m. elim (header_line-state c line m) [ inl p ↦ inl (p ∙ e) | inr q ↦ inr q ]))
step-Falls expect_body c now xs e g = elim g [ ]
step-Falls got_all c now xs e g = elim g [ ]

-- A step that does not go on gives a result.
Stops-ne-running :
    (k : HttpContext → List ℕ → Parsed (List ℕ)) (r : Option (Round (List ℕ)))
    → Stops r
    → go_on k r ≢ running
Stops-ne-running k none t = λ e. cc
Stops-ne-running k (some (more c xs)) t = elim t [ ]
Stops-ne-running k (some (stop ok c xs)) t = λ e. cc
Stops-ne-running k (some throws) t = λ e. cc

go_on-ne-running :
    (n : ℕ) (k : HttpContext → List ℕ → Parsed (List ℕ)) (r : Option (Round (List ℕ)))
    → Falls n r
    → ((c : HttpContext) (xs : List ℕ)
        → c.state ≡ expect_headers
        → length xs < n
        → k c xs ≢ running)
    → ((c : HttpContext) (xs : List ℕ) → c.state ≡ expect_body → k c xs ≢ running)
    → go_on k r ≢ running
go_on-ne-running n k none t f g = λ e. cc
go_on-ne-running n k (some (more c xs)) (inl (e, h)) f g = f c xs e h
go_on-ne-running n k (some (more c xs)) (inr e) f g = g c xs e
go_on-ne-running n k (some (stop ok c xs)) t f g = λ e. cc
go_on-ne-running n k (some throws) t f g = λ e. cc

lines-ne-running :
    (fuel : ℕ) (s : State) (c : HttpContext) (now : ℕ) (xs : List ℕ)
    → c.state ≡ s
    → InLines s
    → ((s' : State) (c' : HttpContext) (now' : ℕ) (xs' : List ℕ)
        → c'.state ≡ s'
        → Enough s' (length xs') fuel
        → text_loop fuel c' now' xs' ≢ running)
    → length xs + 1 ≤ fuel
    → text_loop (suc fuel) c now xs ≢ running
unfolding text_loop
lines-ne-running fuel s c now xs e l ih h = simp e (
    go_on-ne-running (length xs) _ (text_step s c now xs) (step-Falls s c now xs e l)
      (λ c' xs' e' h'. ih expect_headers c' now xs' e' (omega arith))
      (λ c' xs' e'. ih expect_body c' now xs' e' (omega arith)))

text_loop-ne-running :
    (fuel : ℕ) (s : State) (c : HttpContext) (now : ℕ) (xs : List ℕ)
    → c.state ≡ s
    → Enough s (length xs) fuel
    → text_loop fuel c now xs ≢ running
unfolding text_loop
text_loop-ne-running zero expect_request_line c now xs e h = absurd (omega arith)
text_loop-ne-running zero expect_headers c now xs e h = absurd (omega arith)
text_loop-ne-running zero expect_body c now xs e h = absurd (omega arith)
text_loop-ne-running fuel got_all c now xs e h = elim h [ ]
text_loop-ne-running (suc fuel) expect_body c now xs e h =
    simp e (Stops-ne-running _ (text_step expect_body c now xs) (body_Stops c now xs))
text_loop-ne-running (suc fuel) expect_request_line c now xs e h =
    lines-ne-running fuel expect_request_line c now xs e tt (text_loop-ne-running fuel)
      (omega arith)
text_loop-ne-running (suc fuel) expect_headers c now xs e h =
    lines-ne-running fuel expect_headers c now xs e tt (text_loop-ne-running fuel) (omega arith)

pub parse_text-ne-running :
    (s : State) (c : HttpContext) (now : ℕ) (xs : List ℕ)
    → c.state ≡ s
    → got_all? s ≡ false
    → parse_text c now xs ≢ running
unfolding parse_text got_all?
parse_text-ne-running expect_request_line c now xs e g =
    text_loop-ne-running _ expect_request_line c now xs e (omega arith)
parse_text-ne-running expect_headers c now xs e g =
    text_loop-ne-running _ expect_headers c now xs e (omega arith)
parse_text-ne-running expect_body c now xs e g =
    text_loop-ne-running _ expect_body c now xs e (omega arith)
parse_text-ne-running got_all c now xs e g = cc
