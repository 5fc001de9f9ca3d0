-- ===== src/Http/Request.antt =====
-- pallette/http/HttpRequest.h. A string is a list of bytes, a time its microseconds.
use pallette.Base.{ℕ, Bool, true, false, not, ◌&&◌, ◌||◌, List, [], ◌∷◌, Option, none, some}
use pallette.Base.Tests.{leb, ◌==◌, if◌then◌else◌}
use pallette.Base.Text.{codes, str_eq, lookup, insert}

pub data Method : Type 0 where
  invalid get post head put delete : Method

pub data Version : Type 0 where
  unknown http10 http11 : Version

pub record HttpRequest : Type 0 where
  pub method : Method
  pub version : Version
  pub path : List ℕ
  pub query : List ℕ
  pub receive_time : ℕ
  pub headers : List (List ℕ × List ℕ)

unfoldable pub new : HttpRequest
new = record {
  method = Method.invalid;
  version = Version.unknown;
  path = [];
  query = [];
  receive_time = 0;
  headers = [];
}

abbrev pub is_invalid : Method → Bool
is_invalid Method.invalid = true
is_invalid _ = false

unfoldable pub method_of : List ℕ → Method
method_of m =
    if str_eq m (codes "GET")
    then Method.get
    else if str_eq m (codes "POST")
    then Method.post
    else if str_eq m (codes "HEAD")
    then Method.head
    else if str_eq m (codes "PUT")
    then Method.put
    else if str_eq m (codes "DELETE")
    then Method.delete
    else Method.invalid

-- `none` is the failed `assert(method_ == INVALID)`.
unfoldable pub set_method : HttpRequest → List ℕ → Option (Bool × HttpRequest)
set_method r m =
    if is_invalid r.method
    then some (not (is_invalid (method_of m)), record r { method = method_of m })
    else none

unfoldable pub method_string : Method → List ℕ
method_string Method.get = codes "GET"
method_string Method.post = codes "POST"
method_string Method.head = codes "HEAD"
method_string Method.put = codes "PUT"
method_string Method.delete = codes "DELETE"
method_string Method.invalid = codes "UNKNOWN"

-- `isspace` in the C locale, false on bytes from 128 on.
abbrev pub is_space : ℕ → Bool
is_space c = (c == 32) || (leb 9 c && leb c 13)

-- The loop on `colon`.
unfoldable pub skip_spaces : List ℕ → List ℕ
skip_spaces [] = []
skip_spaces (c ∷ cs) = if is_space c then skip_spaces cs else c ∷ cs

unfoldable pub keep_unless_space : ℕ → List ℕ → List ℕ
keep_unless_space c [] = if is_space c then [] else c ∷ []
keep_unless_space c (d ∷ ds) = c ∷ (d ∷ ds)

-- The loop that shrinks `value`: a byte goes if it is a space and all behind it went.
unfoldable pub trim_end : List ℕ → List ℕ
trim_end [] = []
trim_end (c ∷ cs) = keep_unless_space c (trim_end cs)

-- `field` is what stands before the colon, `rest` what stands behind it.
unfoldable pub add_header : HttpRequest → List ℕ → List ℕ → HttpRequest
add_header r field rest = record r {
  headers = insert field (trim_end (skip_spaces rest)) r.headers;
}

abbrev value_or_empty : Option (List ℕ) → List ℕ
value_or_empty none = []
value_or_empty (some v) = v

unfoldable pub get_header : HttpRequest → List ℕ → List ℕ
get_header r field = value_or_empty (lookup field r.headers)
