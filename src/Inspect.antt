-- ===== src/Inspect.antt =====
-- pallette/inspect/Inspector.cpp: reports over HTTP. The bytes of the icon are an argument; a callback
-- may be empty, as a `std::function` may.
pub mod Commands
pub mod Process
mod Tests
use pallette.Base.{ℕ, zero, suc, ◌+◌, ◌-◌, List, [], ◌∷◌, ◌++◌, Option, none, some}
use pallette.Base.Tests.{ltb, leb, ◌==◌, if◌then◌else◌}
use pallette.Base.Lists.{length, take, drop, replicate}
use pallette.Base.Text.{codes, str_eq, find, lookup, insert, erase_key}
use pallette.Buffer.{◌>>=◌}
use pallette.Http.Request.{Method, HttpRequest}
use pallette.Http.Response.{HttpResponse, add_header}
use pallette.Http.Response

abbrev slash : ℕ
slash = b'/'

-- The loop of `split`: `rest` is the text from `start` on.
unfoldable pub split_rest : (fuel : ℕ) → List ℕ → List (List ℕ)
split_rest zero rest = []
split_rest (suc fuel) rest =
    let pos = find slash rest in
    let more = split_rest fuel (drop (suc pos) rest) in
    if ltb pos (length rest)
    then (if ltb 0 pos then take pos rest ∷ more else more)
    else if ltb 0 (length rest)
    then rest ∷ []
    else []

unfoldable pub split : List ℕ → List (List ℕ)
split str = split_rest (suc (length str)) str

abbrev pub Callback : Type 0
Callback = Option (Method → List (List ℕ) → List ℕ)

pub record Inspector : Type 0 where
  pub modules : List (List ℕ × List (List ℕ × Callback))
  pub helps : List (List ℕ × List (List ℕ × List ℕ))

abbrev pub new : Inspector
new = record { modules = []; helps = [] }

-- `m[k]`, which makes an empty list where the map has none.
abbrev pub at_key {ℓ} : {V : Type ℓ} → Option (List V) → List V
at_key none = []
at_key (some vs) = vs

unfoldable pub add : Inspector → (module' command : List ℕ) → Callback → (help : List ℕ) → Inspector
add s module' command cb help = record s {
  modules = insert module' (insert command cb (at_key (lookup module' s.modules))) s.modules;
  helps = insert module' (insert command help (at_key (lookup module' s.helps))) s.helps;
}

abbrev pub removed :
    Inspector → (module' command : List ℕ) → Option (List (List ℕ × Callback)) → Inspector
removed s module' command none = s
removed s module' command (some commands) = record s {
  modules = insert module' (erase_key command commands).1 s.modules;
  helps = insert module' (erase_key command (at_key (lookup module' s.helps))).1 s.helps;
}

abbrev pub remove : Inspector → (module' command : List ℕ) → Inspector
remove s module' command = removed s module' command (lookup module' s.modules)

-- The page of `/`: every command with its help.
abbrev pub help_line : List ℕ → List ℕ × List ℕ → List ℕ
help_line module' (command, help) =
    let len = length module' + length command in
    codes "/"
    ++ module'
    ++ codes "/"
    ++ command
    ++ replicate (if leb 25 len then 1 else 25 - len) b' '
    ++ help
    ++ (10 ∷ [])

abbrev pub help_lines : List ℕ → List (List ℕ × List ℕ) → List ℕ
help_lines module' [] = []
help_lines module' (h ∷ hs) = help_line module' h ++ help_lines module' hs

abbrev pub index : List (List ℕ × List (List ℕ × List ℕ)) → List ℕ
index [] = []
index ((module', hs) ∷ helps) = help_lines module' hs ++ index helps

abbrev pub answers : HttpResponse → (type body : List ℕ) → HttpResponse
answers resp type body =
    let resp' = record resp { status_code = Response.StatusCode.ok; status_message = codes "OK" } in
    record (add_header resp' (codes "Content-Type") type) { body = body }

abbrev pub not_found : HttpResponse → HttpResponse
not_found resp = record resp {
  status_code = Response.StatusCode.not_found;
  status_message = codes "Not Found";
}

abbrev pub on_command : Option Callback → HttpRequest → HttpResponse → List (List ℕ) → HttpResponse
on_command none req resp args = not_found resp
on_command (some none) req resp args = not_found resp
on_command (some (some cb)) req resp args = answers resp (codes "text/plain") (cb req.method args)

module _ (favicon : List ℕ) where
  -- By the parts of the path.
  abbrev pub on_parts : Inspector → HttpRequest → HttpResponse → List (List ℕ) → HttpResponse
  on_parts s req resp [] = not_found resp
  on_parts s req resp (module' ∷ []) =
      if str_eq module' (codes "favicon.ico")
      then answers resp (codes "image/png") favicon
      else not_found resp
  on_parts s req resp (module' ∷ command ∷ args) =
      on_command (lookup module' s.modules >>= lookup command) req resp args

  unfoldable pub on_request : Inspector → HttpRequest → HttpResponse → HttpResponse
  on_request s req resp =
      if str_eq req.path (codes "/")
      then answers resp (codes "text/plain") (index s.helps)
      else on_parts s req resp (split req.path)
