-- ===== src/Time/Zone/File.antt =====
-- pallette/TimeZone.cpp, the class File, readTimeZoneFile and the constructor from a file. A file
-- is its bytes, or none where it cannot be opened; what is left to read is passed on. A reader
-- returns `none` for a thrown logic_error.
pub mod Parts
pub mod RoundTrip
use pallette.Base.{
  ℕ, zero, suc, ◌+◌, ◌-◌, ◌*◌, ◌^◌, ◌≡◌, refl, Bool, true, false, not, ◌&&◌, List, [], ◌∷◌, ◌++◌,
  Option, none, some,
}
use pallette.Base.Tests.{ltb, leb, ◌==◌, if◌then◌else◌}
use pallette.Base.Int.{ℤ, pos, negsuc, pos_part, ◌+ℤ◌, ltb_ℤ}
use pallette.Base.Lists.{length, take, drop, get_elem?}
use pallette.Base.Text.{codes, str_eq}
use pallette.Buffer.{◌>>=◌, ◌>>◌, guard}
use pallette.Time.Zone.{Transition, Localtime, Data, Tm, find_localtime, to_local_time}

pub read_bytes : ℕ → List ℕ → Option (List ℕ × List ℕ)
read_bytes n bytes = guard (leb n (length bytes)) >> some (take n bytes, drop n bytes)

-- `be32toh` of four bytes, as an `int32_t`.
abbrev pub be_int32 : (a b c d : ℕ) → ℤ
be_int32 a b c d =
    let n = ((a * 256 + b) * 256 + c) * 256 + d in
    if ltb n (2 ^ 31) then pos n else negsuc (2 ^ 32 - n - 1)

pub read_int32 : List ℕ → Option (ℤ × List ℕ)
read_int32 (a ∷ b ∷ c ∷ d ∷ rest) = some (be_int32 a b c d, rest)
read_int32 _ = none

pub read_uint8 : List ℕ → Option (ℕ × List ℕ)
read_uint8 [] = none
read_uint8 (a ∷ rest) = some (a, rest)

-- The two loops that read one value for each transition.
pub read_many :
    {A : Type 0} → (List ℕ → Option (A × List ℕ)) → ℕ → List ℕ → Option (List A × List ℕ)
read_many read zero bytes = some ([], bytes)
read_many read (suc n) bytes = do
  (x, bytes') ← read bytes
  (xs, bytes'') ← read_many read n bytes'
  some (x ∷ xs, bytes'')

pub read_localtime : List ℕ → Option (Localtime × List ℕ)
read_localtime bytes = do
  (gmtoff, b) ← read_int32 bytes
  (isdst, b') ← read_uint8 b
  (abbrind, b'') ← read_uint8 b'
  some (record { gmt_offset = gmtoff; is_dst = not (isdst == 0); arrb_idx = abbrind }, b'')

-- A local time is added, and the loop goes on, or it throws.
abbrev pub add_localtime :
    (List ℕ → List Localtime × Option (List ℕ))
    → Option (Localtime × List ℕ)
    → List Localtime × Option (List ℕ)
add_localtime go none = ([], none)
add_localtime go (some (x, b)) = (x ∷ (go b).0, (go b).1)

-- The loop that fills `localtimes`: those that it added, also where it throws.
pub read_localtimes : ℕ → List ℕ → List Localtime × Option (List ℕ)
read_localtimes zero bytes = ([], some bytes)
read_localtimes (suc n) bytes = add_localtime (λ b. read_localtimes n b) (read_localtime bytes)

-- The loop that fills `transitions`; `none` is an index outside the vector of local times.
pub fill_transitions : List Localtime → List ℤ → List ℕ → Option (List Transition)
fill_transitions ls [] idxs = some []
fill_transitions ls (t ∷ ts) [] = none
fill_transitions ls (t ∷ ts) (i ∷ is) = do
  local ← get_elem? ls i
  rest ← fill_transitions ls ts is
  some (record { gmttime = t; localtime = t +ℤ local.gmt_offset; localtime_idx = i } ∷ rest)

pub record Counts : Type 0 where
  pub leapcnt : ℤ
  pub timecnt : ℤ
  pub typecnt : ℤ
  pub charcnt : ℤ

pub read_header : List ℕ → Option (Counts × List ℕ)
read_header bytes = do
  (head, b) ← read_bytes 4 bytes
  guard (str_eq head (codes "TZif"))
  (version, b) ← read_bytes 1 b
  (reserved, b) ← read_bytes 15 b
  (isgmtcnt, b) ← read_int32 b
  (isstdcnt, b) ← read_int32 b
  (leapcnt, b) ← read_int32 b
  (timecnt, b) ← read_int32 b
  (typecnt, b) ← read_int32 b
  (charcnt, b) ← read_int32 b
  some (record { leapcnt = leapcnt; timecnt = timecnt; typecnt = typecnt; charcnt = charcnt }, b)

abbrev pub no_data : Data
no_data = record { transitions = []; localtimes = []; abbreviation = [] }

abbrev pub set_names : Data → Option (List ℕ × List ℕ) → Data
set_names d none = d
set_names d (some (names, rest)) = record d { abbreviation = names }

-- The abbreviations, after which nothing more is read. A negative count is undefined.
pub read_names : Data → ℤ → List ℕ → Option Data
read_names d (negsuc n) bytes = none
read_names d (pos n) bytes = some (set_names d (read_bytes n bytes))

-- After the loop that reads the local times.
pub fill : Counts → List ℤ → List ℕ → List Localtime × Option (List ℕ) → Option Data
fill c trans idxs (ls, none) = some (record no_data { localtimes = ls })
fill c trans idxs (ls, some b) = fill_transitions ls trans idxs >>= λ ts.
    read_names (record no_data { localtimes = ls; transitions = ts }) c.charcnt b

-- After the loop that reads the indices.
pub read_rest : Counts → List ℤ → Option (List ℕ × List ℕ) → Option Data
read_rest c trans none = some no_data
read_rest c trans (some (idxs, b)) = fill c trans idxs (read_localtimes (pos_part c.typecnt) b)

-- After the loop that reads the times.
pub read_indices : Counts → Option (List ℤ × List ℕ) → Option Data
read_indices c none = some no_data
read_indices c (some (trans, b)) = read_rest c trans (read_many read_uint8 (pos_part c.timecnt) b)

-- After the header. `reserve` of a negative count throws a length_error, which is a logic_error.
pub read_body : Option (Counts × List ℕ) → Option Data
read_body none = some no_data
read_body (some (c, b)) =
    if ltb_ℤ c.timecnt (pos 0)
    then some no_data
    else read_indices c (read_many read_int32 (pos_part c.timecnt) b)

-- The data of the time zone: readTimeZoneFile returns true whatever happens, so the constructor
-- keeps them. `none` is undefined behaviour.
pub read_time_zone_file : Option (List ℕ) → Option Data
read_time_zone_file none = some no_data
read_time_zone_file (some bytes) = read_body (read_header bytes)

-- A time zone whose file cannot be opened is made all the same, and asking it for any local time
-- reads the front of an empty vector.
pub to_local_time_missing :
    (gmtime : ℤ → Tm) (seconds : ℤ)
    → (read_time_zone_file none >>= λ d. to_local_time gmtime d seconds) ≡ none
unfolding read_time_zone_file to_local_time find_localtime
to_local_time_missing gmtime seconds = refl
