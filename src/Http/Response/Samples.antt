-- ===== src/Http/Response/Samples.antt =====
-- A page, and numbers of up to three digits.
use pallette.Base.{ℕ, ◌+◌, ◌/◌, ◌%◌, refl, false, List, [], ◌∷◌, arith}
use pallette.Base.Tests.{ltb, if◌then◌else◌}
use pallette.Base.Text.{codes}
use pallette.Http.Request.{skip_spaces}
use pallette.Http.Context.{stoi, signed, digits_value}
use pallette.Http.Response.{HttpResponse, StatusCode, new, code_of}
use pallette.Http.Response.Head.{Prints}

abbrev pub decimal : ℕ → List ℕ
decimal n =
    if ltb n 10
    then (b'0' + n) ∷ []
    else if ltb n 100
    then (b'0' + n / 10) ∷ ((b'0' + n % 10) ∷ [])
    else (b'0' + n / 100) ∷ ((b'0' + n / 10 % 10) ∷ ((b'0' + n % 10) ∷ []))

abbrev pub page : HttpResponse
page = record (new false) {
  headers = (codes "Server", codes "pallette") ∷ [];
  status_code = StatusCode.ok;
  status_message = codes "OK";
  body = codes "hello";
}

pub code-Prints : Prints decimal (code_of page.status_code)
unfolding stoi skip_spaces signed digits_value
code-Prints = record { clean = (refl, (refl, (refl, tt))); short = omega arith; value = refl }

pub size-Prints : Prints decimal 5
unfolding stoi skip_spaces signed digits_value
size-Prints = record { clean = (refl, tt); short = omega arith; value = refl }
