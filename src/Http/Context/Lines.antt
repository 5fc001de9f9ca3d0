-- ===== src/Http/Context/Lines.antt =====
-- Request lines and header lines as they are printed, and what the parser makes of one of them.
use pallette.Base.{
  ℕ, suc, ◌+◌, ◌≡◌, refl, Bool, true, false, List, [], ◌∷◌, ◌++◌, Option, none, some, arith,
  append_assoc, append-nil,
}
use pallette.Base.Tests.{◌==◌, ==_refl}
use pallette.Base.Lists.{
  length, drop, All, length-append, take-append_eq, drop-append_eq, All-append,
}
use pallette.Base.Text.{codes, find, find_absent, find_after, str_eq, insert}
use pallette.Buffer.Slices.{memmem, starts_with}
use pallette.Http.Request.{
  HttpRequest, Method, Version, set_method, method_of, method_string, is_invalid, add_header,
  skip_spaces, trim_end,
}
use pallette.Http.Context.{
  HttpContext, crlf, process_request_line, process_target, process_header_line, version_of,
  set_target,
}
use pallette.Http.Context.Text.{cut_line}

abbrev pub Without : ℕ → List ℕ → Type 0
Without c = All (λ x. (x == c) ≡ false)

memmem_line :
    (line rest : List ℕ)
    → Without 13 line
    → memmem (line ++ (crlf ++ rest)) crlf ≡ some (length line)
unfolding memmem starts_with
memmem_line [] rest h = refl
memmem_line (x ∷ line) rest h = rw (h.0, memmem_line line rest h.1)

-- A line without a carriage return is cut off at its line break.
pub cut_line_lem :
    (line rest : List ℕ) → Without 13 line → cut_line (line ++ (crlf ++ rest)) ≡ some (line, rest)
unfolding cut_line
cut_line_lem line rest h = rw (
  memmem_line line rest h,
  cut_line,
  take-append_eq (length line) line (crlf ++ rest) refl,
  ← append_assoc line crlf rest,
  drop-append_eq (length line + 2) (line ++ crlf) rest (length-append line crlf),
)

-- A header line: a name without a colon, and a value without spaces round it.
abbrev pub header_line : List ℕ → List ℕ → List ℕ
header_line field value = field ++ (b':' ∷ (b' ' ∷ value))

pub record IsHeader (field value : List ℕ) : Type 0 where
  pub field_ok : Without b':' field × Without 13 field
  pub value_ok : Without 13 value
  pub trimmed : (skip_spaces value ≡ value) × (trim_end value ≡ value)

pub header_line_lem :
    (c : HttpContext) (field value : List ℕ)
    → IsHeader field value
    → process_header_line c (header_line field value) ≡ (
      record c { request = record c.request { headers = insert field value c.request.headers } },
      true,
    )
unfolding process_header_line add_header
header_line_lem c field value h = rw (
  find_after b':' field (b' ' ∷ value) h.field_ok.0,
  inner,
  take-append_eq (length field) field (b':' ∷ (b' ' ∷ value)) refl,
  behind,
  space,
)
  where
    inner : (length field == length (header_line field value)) ≡ false
    inner = ground (arith, length-append field (b':' ∷ (b' ' ∷ value)))

    behind : drop (suc (length field)) (header_line field value) ≡ b' ' ∷ value
    behind = rw (← append_assoc field (b':' ∷ []) (b' ' ∷ value)) (
        drop-append_eq (suc (length field)) (field ++ b':' ∷ []) (b' ' ∷ value)
          (omega (arith, length-append field (b':' ∷ []))))

    space : trim_end (skip_spaces (b' ' ∷ value)) ≡ value
    space = unfold skip_spaces in rw h.trimmed.0 h.trimmed.1

-- The query is what follows the question mark, if there is one.
abbrev pub query_bytes : Option (List ℕ) → List ℕ
query_bytes none = []
query_bytes (some q) = b'?' ∷ q

abbrev IsQuery : Option (List ℕ) → Type 0
IsQuery none = Unit {0}
IsQuery (some q) = Without b' ' q × Without 13 q

pub record IsTarget (path : List ℕ) (query : Option (List ℕ)) : Type 0 where
  pub path_ok : Without b'?' path × Without b' ' path × Without 13 path
  pub query_ok : IsQuery query

-- A request whose method alone is known.
abbrev pub opened : Method → HttpRequest
opened m = record {
  method = m;
  version = Version.unknown;
  path = [];
  query = [];
  receive_time = 0;
  headers = [];
}

set_target_lem :
    (m : Method) (path : List ℕ) (query : Option (List ℕ))
    → Without b'?' path
    → set_target (opened m) (path ++ query_bytes query)
      ≡ record (opened m) { path = path; query = query_bytes query }
set_target_lem m path none t = rw (append-nil path, find_absent b'?' path t, ==_refl (length path))
set_target_lem m path (some q) t = rw (
  find_after b'?' path q t,
  inner,
  take-append_eq (length path) path (b'?' ∷ q) refl,
  drop-append_eq (length path) path (b'?' ∷ q) refl,
)
  where
    inner : (length path == length (path ++ b'?' ∷ q)) ≡ false
    inner = ground (arith, length-append path (b'?' ∷ q))

abbrev pub version_string : Bool → List ℕ
version_string true = codes "HTTP/1.1"
version_string false = codes "HTTP/1.0"

abbrev pub version : Bool → Version
version true = Version.http11
version false = Version.http10

version_of-version_string : (one : Bool) → version_of (version_string one) ≡ some (version one)
unfolding version_of starts_with
version_of-version_string true = refl
version_of-version_string false = refl

abbrev pub target : List ℕ → Option (List ℕ) → List ℕ
target path query = path ++ query_bytes query

target-Without :
    (path : List ℕ) (query : Option (List ℕ))
    → IsTarget path query
    → Without b' ' (target path query) × Without 13 (target path query)
target-Without path none t = rw (append-nil path) (t.path_ok.1, t.path_ok.2)
target-Without path (some q) t = (
  All-append _ path (b'?' ∷ q) t.path_ok.1 (refl, t.query_ok.0),
  All-append _ path (b'?' ∷ q) t.path_ok.2 (refl, t.query_ok.1),
)

-- A byte in the middle of a text is split at.
module _ (c : ℕ) (xs ys : List ℕ) (h : Without c xs) where
  pub find-split : find c (xs ++ c ∷ ys) ≡ length xs
  find-split = find_after c xs ys h

  pub not_end : (length xs == length (xs ++ c ∷ ys)) ≡ false
  not_end = ground (arith, length-append xs (c ∷ ys))

  pub drop-split : drop (suc (length xs)) (xs ++ c ∷ ys) ≡ ys
  drop-split = rw (← append_assoc xs (c ∷ []) ys) (
      drop-append_eq (suc (length xs)) (xs ++ c ∷ []) ys (omega (arith, length-append xs (c ∷ []))))

process_target_lem :
    (m : Method) (path : List ℕ) (query : Option (List ℕ)) (one : Bool)
    → IsTarget path query
    → process_target (opened m) (target path query ++ b' ' ∷ version_string one)
      ≡ (true, record (opened m) { path = path; query = query_bytes query; version = version one })
unfolding process_target
process_target_lem m path query one t =
    let clean = (target-Without path query t).0 in
    rw (
      find-split b' ' (target path query) (version_string one) clean,
      not_end b' ' (target path query) (version_string one) clean,
      take-append_eq (length (target path query)) (target path query) (b' ' ∷ version_string one)
          refl,
      drop-split b' ' (target path query) (version_string one) clean,
      set_target_lem m path query t.path_ok.0,
      version_of-version_string one,
    )

abbrev pub request_line : Method → List ℕ → Option (List ℕ) → Bool → List ℕ
request_line m path query one =
    method_string m ++ b' ' ∷ (target path query ++ b' ' ∷ version_string one)

pub method-Without : (m : Method) → Without b' ' (method_string m) × Without 13 (method_string m)
unfolding method_string
method-Without Method.get = ground arith
method-Without _ = ground arith

pub method_of-method_string : (m : Method) → is_invalid m ≡ false → method_of (method_string m) ≡ m
unfolding method_of method_string str_eq
method_of-method_string Method.invalid h = cc
method_of-method_string Method.get h = refl
method_of-method_string _ h = refl

-- A printed request line is read back, whatever the method that is known.
pub process_request_line_lem :
    (m : Method) (path : List ℕ) (query : Option (List ℕ)) (one : Bool)
    → is_invalid m ≡ false
    → IsTarget path query
    → process_request_line (opened Method.invalid) (request_line m path query one)
      ≡ some (
        true,
        record (opened m) { path = path; query = query_bytes query; version = version one },
      )
unfolding process_request_line set_method
process_request_line_lem m path query one known t =
    let clean = (method-Without m).0 in
    let rest = target path query ++ b' ' ∷ version_string one in
    rw (
      find-split b' ' (method_string m) rest clean,
      not_end b' ' (method_string m) rest clean,
      take-append_eq (length (method_string m)) (method_string m) (b' ' ∷ rest) refl,
      drop-split b' ' (method_string m) rest clean,
      method_of-method_string m known,
      known,
      process_target_lem m path query one t,
    )

pub request_line-Without :
    (m : Method) (path : List ℕ) (query : Option (List ℕ)) (one : Bool)
    → IsTarget path query
    → Without 13 (request_line m path query one)
request_line-Without m path query one t = All-append _ (method_string m) _ (method-Without m).1 (
  refl,
  All-append _ (target path query) _ (target-Without path query t).1 (refl, version_clean one),
)
  where
    version_clean : (o : Bool) → Without 13 (version_string o)
    version_clean true = ground arith
    version_clean false = ground arith
