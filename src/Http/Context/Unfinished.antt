-- ===== src/Http/Context/Unfinished.antt =====
-- Requests that `parseRequest` reads to the end of their headers, and never completes.
use pallette.Base.{
  ℕ, zero, suc, ◌+◌, ◌<◌, ◌≡◌, refl, sym, ◌∙◌, subst, Bool, true, false, List, Option, none, some,
  arith, inl, inr,
}
use pallette.Base.Tests.{◌==◌, Bool-cases}
use pallette.Base.Lists.{length}
use pallette.Base.Text.{find}
use pallette.Buffer.{Buffer}
use pallette.Buffer.Inv.{Holds}
use pallette.Http.Request.{Method, add_header}
use pallette.Http.Context.{
  expect_headers, HttpContext, Parsed, parsed, process_header_line, round_of, end_of_headers,
  parse_request, go_on,
}
use pallette.Http.Context.Text.{cut_line, text_step, text_loop, parse_text}
use pallette.Http.Context.Rounds.{cut_line-lt}
use pallette.Http.Context.Calls.{Returns, returns}

-- The methods for which the end of the headers changes nothing.
abbrev pub IsIgnored : Method → Type 0
IsIgnored Method.head = Unit {0}
IsIgnored Method.put = Unit {0}
IsIgnored Method.delete = Unit {0}
IsIgnored _ = ⊥

record Keeps (c : HttpContext) (r : HttpContext × Bool) : Type 0 where
  goes_on : r.1 ≡ true
  state_is : r.0.state ≡ c.state
  method_is : r.0.request.method ≡ c.request.method

end_of_headers-Keeps : (c : HttpContext) (m : Method) → IsIgnored m → Keeps c (end_of_headers c m)
unfolding end_of_headers
end_of_headers-Keeps c Method.invalid i = elim i [ ]
end_of_headers-Keeps c Method.get i = elim i [ ]
end_of_headers-Keeps c Method.post i = elim i [ ]
end_of_headers-Keeps c _ i = record { goes_on = refl; state_is = refl; method_is = refl }

header_line-Keeps :
    (c : HttpContext) (line : List ℕ)
    → IsIgnored c.request.method
    → Keeps c (process_header_line c line)
unfolding process_header_line add_header
header_line-Keeps c line i = elim (Bool-cases (find b':' line == length line)) [
  | inl last ↦ rw last (end_of_headers-Keeps c c.request.method i)
  | inr inner ↦ rw inner (record { goes_on = refl; state_is = refl; method_is = refl })
]

-- The parser waits for more, still among the headers, and no whole line is left.
record Waits (m : Method) (p : Parsed (List ℕ)) : Type 0 where
  context : HttpContext
  left : List ℕ
  returned : p ≡ parsed true context left
  state_is : context.state ≡ expect_headers
  method_is : context.request.method ≡ m
  no_line : cut_line left ≡ none

text_loop-Waits :
    (fuel now : ℕ) (c : HttpContext) (xs : List ℕ)
    → c.state ≡ expect_headers
    → IsIgnored c.request.method
    → length xs < fuel
    → Waits c.request.method (text_loop fuel c now xs)
unfolding text_loop
text_loop-Waits zero now c xs e i h = elim h [ ]
text_loop-Waits (suc fuel) now c xs e i h = by_line (cut_line xs) refl (text_loop-Waits fuel now)
  where
    by_line :
        (r : Option (List ℕ × List ℕ))
        → cut_line xs ≡ r
        → ((c' : HttpContext) (xs' : List ℕ)
            → c'.state ≡ expect_headers
            → IsIgnored c'.request.method
            → length xs' < fuel
            → Waits c'.request.method (text_loop fuel c' now xs'))
        → Waits c.request.method (text_loop (suc fuel) c now xs)
    by_line none n ih = record {
      context = c;
      left = xs;
      returned = unfold text_step in simp e (rw (n, text_step));
      state_is = e;
      method_is = refl;
      no_line = n;
    }
    by_line (some (line, rest)) n ih =
        unfold text_step in
        simp e (rw (n, text_step) (next (process_header_line c line) (header_line-Keeps c line i)))
      where
        next :
            (r : HttpContext × Bool)
            → Keeps c r
            → Waits c.request.method
                (go_on (λ c' xs'. text_loop fuel c' now xs') (some (round_of r rest)))
        next (c', false) k = let f = k.goes_on in cc
        next (c', true) k =
            subst (λ m. Waits m (text_loop fuel c' now rest)) k.method_is
              (ih c' rest (k.state_is ∙ e) (subst IsIgnored (sym k.method_is) i)
                (omega (arith, cut_line-lt xs line rest n)))

-- While headers are read for HEAD, PUT or DELETE, a call takes every whole line, reports success
-- and still waits for headers: the request is never completed, whatever arrives.
pub parse_request_ignored :
    (b : Buffer) (xs : List ℕ) (c : HttpContext) (now : ℕ)
    → Holds b xs
    → c.state ≡ expect_headers
    → IsIgnored c.request.method
    → (c' : HttpContext) × (ys : List ℕ) × Returns (parse_request c now b) true c' ys
      × (c'.state ≡ expect_headers)
      × (c'.request.method ≡ c.request.method)
      × (cut_line ys ≡ none)
parse_request_ignored b xs c now h e i =
    let w = text_loop-Waits (length xs + 2) now c xs e i (omega arith) in
    (
      w.context,
      w.left,
      returns b xs w.left c w.context now true h (unfold parse_text in w.returned),
      w.state_is,
      w.method_is,
      w.no_line,
    )
