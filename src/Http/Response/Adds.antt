-- ===== src/Http/Response/Adds.antt =====
-- Operations that add to a buffer, and the text of the headers.
use pallette.Base.{
  ℕ, ◌≡◌, refl, sym, ap, ◌∙◌, subst, List, [], ◌∷◌, ◌++◌, Option, some, append_assoc, append-nil,
}
use pallette.Base.Text.{codes}
use pallette.Buffer.{Buffer, ◌>>=◌, append}
use pallette.Buffer.Inv.{Holds}
use pallette.Buffer.Ops.{append_lem}
use pallette.Http.Context.{crlf}
use pallette.Http.Response.{append_headers}

-- An operation that adds bytes behind those a buffer holds.
abbrev pub Appends : (Buffer → Option Buffer) → List ℕ → Type 0
Appends f ys =
    (b : Buffer) (xs : List ℕ) → Holds b xs → (b' : Buffer) × (f b ≡ some b') × Holds b' (xs ++ ys)

pub append-Appends : (ys : List ℕ) → Appends (λ b. append b ys) ys
append-Appends ys b xs h = append_lem b xs ys h

pub then-Appends :
    (f g : Buffer → Option Buffer) (ys zs : List ℕ)
    → Appends f ys
    → Appends g zs
    → Appends (λ b. f b >>= g) (ys ++ zs)
then-Appends f g ys zs p q b xs h =
    let (b', e, h') = p b xs h in
    let (b'', e', h'') = q b' (xs ++ ys) h' in
    (b'', ap (λ o. o >>= g) e ∙ e', subst (Holds b'') (append_assoc xs ys zs) h'')

-- The lines of a head, one behind the other.
abbrev pub lines_text : List (List ℕ) → List ℕ
lines_text [] = []
lines_text (l ∷ ls) = l ++ (crlf ++ lines_text ls)

abbrev pub header_text : List (List ℕ × List ℕ) → List ℕ
header_text [] = []
header_text ((key, value) ∷ hs) = key ++ (codes ": " ++ (value ++ (crlf ++ header_text hs)))

pub append_headers-Appends :
    (hs : List (List ℕ × List ℕ)) → Appends (append_headers hs) (header_text hs)
unfolding append_headers
append_headers-Appends [] = λ b xs h. (b, refl, subst (Holds b) (sym (append-nil xs)) h)
append_headers-Appends ((key, value) ∷ hs) = then-Appends _ _ _ _ (append-Appends key) (
    then-Appends _ _ _ _ (append-Appends (codes ": ")) (
      then-Appends _ _ _ _ (append-Appends value)
        (then-Appends _ _ _ _ (append-Appends crlf) (append_headers-Appends hs))))
