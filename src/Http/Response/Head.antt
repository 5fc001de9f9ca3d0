-- ===== src/Http/Response/Head.antt =====
-- A client that reads the head and the body of a response.
use pallette.Base.{
  ℕ, zero, suc, ◌≤◌, ◌<◌, ◌≡◌, refl, Bool, true, false, inl, inr, List, [], ◌∷◌, ◌++◌, Option, none,
  some, arith, append_assoc,
}
use pallette.Base.Tests.{leb, ◌==◌, if◌then◌else◌, Bool-cases}
use pallette.Base.Int.{ℤ, pos, negsuc}
use pallette.Base.Lists.{length, take, drop, length-append, All, All-append}
use pallette.Base.Text.{codes}
use pallette.Buffer.{◌>>=◌}
use pallette.Buffer.Slices.{starts_with}
use pallette.Http.Context.{crlf, stoi}
use pallette.Http.Context.Text.{cut_line}
use pallette.Http.Context.Lines.{Without, cut_line_lem}
use pallette.Http.Response.{HttpResponse, code_of}
use pallette.Http.Response.Adds.{lines_text, header_text}

abbrev pub is_blank : List ℕ → Bool
is_blank [] = true
is_blank (c ∷ cs) = false

-- The lines up to an empty one, and what is behind them.
unfoldable pub read_head : ℕ → List ℕ → Option (List (List ℕ) × List ℕ)
read_head zero xs = none
read_head (suc fuel) xs = cut_line xs >>= λ r.
    let tail = read_head fuel r.1 in
    if is_blank r.0 then some ([], r.1) else (tail >>= λ q. some (r.0 ∷ q.0, q.1))

abbrev pub size_of : Option ℤ → Option ℕ
size_of (some (pos n)) = some n
size_of (some (negsuc n)) = none
size_of none = none

unfoldable pub content_length : List (List ℕ) → Option ℕ
content_length [] = none
content_length (l ∷ ls) =
    let rest = content_length ls in
    if starts_with l (codes "Content-Length: ") then size_of (stoi (drop 16 l)) else rest

-- The lines of the head, the body, and what is behind the response.
abbrev pub cut_body : List (List ℕ) → List ℕ → ℕ → Option (List (List ℕ) × List ℕ × List ℕ)
cut_body ls xs n = if leb n (length xs) then some (ls, take n xs, drop n xs) else none

unfoldable pub read_response : List ℕ → Option (List (List ℕ) × List ℕ × List ℕ)
read_response xs =
    read_head (length xs) xs >>= λ h. (content_length h.0 >>= λ n. cut_body h.0 h.1 n)

abbrev pub IsLine : List ℕ → Type 0
IsLine l = Without 13 l × (is_blank l ≡ false)

pub read_head_lem :
    (ls : List (List ℕ)) (rest : List ℕ) (fuel : ℕ)
    → All IsLine ls
    → length ls < fuel
    → read_head fuel (lines_text ls ++ (crlf ++ rest)) ≡ some (ls, rest)
unfolding read_head
read_head_lem ls rest zero h f = absurd (omega (arith, f))
read_head_lem [] rest (suc fuel) h f = rw (cut_line_lem [] rest tt) refl
read_head_lem (l ∷ ls) rest (suc fuel) ((w, k), hs) f =
    rw
      (
        append_assoc l (crlf ++ lines_text ls) (crlf ++ rest),
        append_assoc crlf (lines_text ls) (crlf ++ rest),
        cut_line_lem l (lines_text ls ++ (crlf ++ rest)) w,
        read_head_lem ls rest fuel hs (omega (arith, f)),
        k,
      )
      refl

pub length-lines_text : (ls : List (List ℕ)) → length ls ≤ length (lines_text ls)
length-lines_text [] = omega arith
length-lines_text (l ∷ ls) =
    omega (arith, length-lines_text ls, length-append l (crlf ++ lines_text ls))

-- What is printed of a number: its digits, few enough for the array that they are printed into.
pub record Prints (decimal : ℕ → List ℕ) (n : ℕ) : Type 0 where
  pub clean : Without 13 (decimal n)
  pub short : length (decimal n) ≤ 13
  pub value : stoi (decimal n) ≡ some (pos n)

abbrev pub CleanHeaders : List (List ℕ × List ℕ) → Type 0
CleanHeaders = All (λ h. Without 13 h.0 × Without 13 h.1)

abbrev pub header_lines : List (List ℕ × List ℕ) → List (List ℕ)
header_lines [] = []
header_lines ((key, value) ∷ hs) = (key ++ (codes ": " ++ value)) ∷ header_lines hs

module _ (decimal : ℕ → List ℕ) (r : HttpResponse) where
  abbrev pub status_line : List ℕ
  status_line = codes "HTTP/1.1 " ++ (decimal (code_of r.status_code) ++ r.status_message)

  abbrev pub length_line : List ℕ
  length_line = codes "Content-Length: " ++ decimal (length r.body)

  -- The lines of the head of a response on a connection that stays open.
  abbrev pub head_lines : List (List ℕ)
  head_lines = status_line ∷ length_line ∷ codes "Connection: Keep-Alive" ∷ header_lines r.headers

  abbrev pub response_text : List ℕ
  response_text = lines_text head_lines ++ (crlf ++ r.body)

pub header_text-eq : (hs : List (List ℕ × List ℕ)) → header_text hs ≡ lines_text (header_lines hs)
header_text-eq [] = refl
header_text-eq ((key, value) ∷ hs) = rw (header_text-eq hs) (simp append_assoc refl)

pub header_lines-IsLine :
    (hs : List (List ℕ × List ℕ)) → CleanHeaders hs → All IsLine (header_lines hs)
header_lines-IsLine [] h = tt
header_lines-IsLine ((key, value) ∷ hs) ((k, v), h) = (
  (All-append _ key (codes ": " ++ value) k (refl, (refl, v)), not_blank key),
  header_lines-IsLine hs h,
)
  where
    not_blank : (key : List ℕ) → is_blank (key ++ (codes ": " ++ value)) ≡ false
    not_blank [] = refl
    not_blank (c ∷ cs) = refl

-- A text without a carriage return, by a test.
abbrev is_clean : List ℕ → Bool
is_clean [] = true
is_clean (c ∷ cs) = if c == 13 then false else is_clean cs

pub is_clean-Without : (l : List ℕ) → is_clean l ≡ true → Without 13 l
is_clean-Without [] e = tt
is_clean-Without (c ∷ cs) e = elim (Bool-cases (c == 13)) [
  | inl cr ↦ absurd (ground (arith, e, cr))
  | inr other ↦ (other, is_clean-Without cs (simp other at e))
]
