-- ===== src/Http/Response.antt =====
-- pallette/http/HttpResponse. What `snprintf` prints of a number is the argument `decimal`.
pub mod Adds
pub mod Head
pub mod Reader
pub mod Samples
mod Tests
use pallette.Base.{ℕ, zero, suc, ◌+◌, Bool, true, false, List, [], ◌∷◌, ◌++◌, Option, none, some}
use pallette.Base.Tests.{if◌then◌else◌}
use pallette.Base.Lists.{length, take}
use pallette.Base.Text.{codes, insert}
use pallette.Buffer.{Buffer, ◌>>=◌, append}
use pallette.Http.Context.{crlf}

pub data StatusCode : Type 0 where
  unknown ok moved_permanently bad_request not_found : StatusCode

abbrev pub code_of : StatusCode → ℕ
code_of StatusCode.unknown = 0
code_of StatusCode.ok = 200
code_of StatusCode.moved_permanently = 301
code_of StatusCode.bad_request = 400
code_of StatusCode.not_found = 404

-- The headers in the order of the map.
pub record HttpResponse : Type 0 where
  pub headers : List (List ℕ × List ℕ)
  pub status_code : StatusCode
  pub status_message : List ℕ
  pub close_connection : Bool
  pub body : List ℕ

abbrev pub new : Bool → HttpResponse
new close = record {
  headers = [];
  status_code = StatusCode.unknown;
  status_message = [];
  close_connection = close;
  body = [];
}

abbrev pub add_header : HttpResponse → List ℕ → List ℕ → HttpResponse
add_header r key value = record r { headers = insert key value r.headers }

-- `snprintf` into `buf[32]`.
abbrev pub into_buf : List ℕ → List ℕ
into_buf text = take 31 text

pub append_connection : (decimal : ℕ → List ℕ) → HttpResponse → Buffer → Option Buffer
append_connection decimal r b =
    if r.close_connection
    then append b (codes "Connection: close" ++ crlf)
    else (append b (into_buf (codes "Content-Length: " ++ (decimal (length r.body) ++ crlf)))
        >>= λ b'. append b' (codes "Connection: Keep-Alive" ++ crlf))

pub append_headers : List (List ℕ × List ℕ) → Buffer → Option Buffer
append_headers [] b = some b
append_headers ((key, value) ∷ hs) b = do
  b1 ← append b key
  b2 ← append b1 (codes ": ")
  b3 ← append b2 value
  b4 ← append b3 crlf
  append_headers hs b4

pub append_to_buffer : (decimal : ℕ → List ℕ) → HttpResponse → Buffer → Option Buffer
append_to_buffer decimal r b = do
  b1 ← append b (into_buf (codes "HTTP/1.1 " ++ decimal (code_of r.status_code)))
  b2 ← append b1 r.status_message
  b3 ← append b2 crlf
  b4 ← append_connection decimal r b3
  b5 ← append_headers r.headers b4
  b6 ← append b5 crlf
  append b6 r.body
