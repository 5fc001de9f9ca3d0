-- ===== src/Time/Zone/File/Parts.antt =====
-- The parts of a time zone file, printed and read back.
use pallette.Base.{
  ℕ, ◌-◌, ◌/◌, ◌%◌, ◌^◌, ◌<◌, ◌≡◌, refl, ap, ◌∙◌, Bool, true, false, not, List, [], ◌∷◌, ◌++◌,
  Option, some, arith, append_assoc,
}
use pallette.Base.Tests.{◌==◌, le→leb}
use pallette.Base.Int.{ℤ, pos, negsuc}
use pallette.Base.Lists.{length, All, replicate, length-append, take-append_eq, drop-append_eq}
use pallette.Base.Text.{codes, str_eq_refl}
use pallette.Time.Zone.{Localtime}
use pallette.Time.Zone.File.{
  read_bytes, be_int32, read_int32, read_uint8, read_many, read_localtime, read_localtimes,
  add_localtime, Counts, read_header,
}

abbrev pub IsInt32 : ℤ → Type 0
IsInt32 (pos n) = n < 2 ^ 31
IsInt32 (negsuc n) = n < 2 ^ 31

-- The two's complement of an `int32_t`.
abbrev pub word : ℤ → ℕ
word (pos n) = n
word (negsuc n) = 2 ^ 32 - n - 1

abbrev pub print_int32 : ℤ → List ℕ
print_int32 z = word z / 2 ^ 24 ∷ word z / 2 ^ 16 % 256 ∷ word z / 2 ^ 8 % 256 ∷ word z % 256 ∷ []

int32_lem :
    (z : ℤ)
    → IsInt32 z
    → be_int32 (word z / 2 ^ 24) (word z / 2 ^ 16 % 256) (word z / 2 ^ 8 % 256) (word z % 256) ≡ z
int32_lem (pos n) h = ground arith
int32_lem (negsuc n) h = ground arith

pub read_int32-print_int32 :
    (z : ℤ) (rest : List ℕ) → IsInt32 z → read_int32 (print_int32 z ++ rest) ≡ some (z, rest)
unfolding read_int32
read_int32-print_int32 z rest h = ap (λ x. some (x, rest)) (int32_lem z h)

-- What prints values one after the other.
abbrev pub print_all : {A : Type 0} → (A → List ℕ) → List A → List ℕ
print_all p [] = []
print_all p (x ∷ xs) = p x ++ print_all p xs

pub read_many-print_all :
    {A : Type 0} (read : List ℕ → Option (A × List ℕ)) (p : A → List ℕ) (P : A → Type 0)
    → ((x : A) (rest : List ℕ) → P x → read (p x ++ rest) ≡ some (x, rest))
    → (xs : List A) (rest : List ℕ) → All P xs
    → read_many read (length xs) (print_all p xs ++ rest) ≡ some (xs, rest)
unfolding read_many
read_many-print_all read p P one [] rest h = refl
read_many-print_all read p P one (x ∷ xs) rest (h, hs) =
    rw
      (
        append_assoc (p x) (print_all p xs) rest,
        one x (print_all p xs ++ rest) h,
        read_many-print_all read p P one xs rest hs,
      )
      refl

abbrev print_bool : Bool → ℕ
print_bool true = 1
print_bool false = 0

abbrev pub print_localtime : Localtime → List ℕ
print_localtime l = print_int32 l.gmt_offset ++ (print_bool l.is_dst ∷ l.arrb_idx ∷ [])

bool_lem : (b : Bool) → not (print_bool b == 0) ≡ b
bool_lem true = refl
bool_lem false = refl

read_localtime-print_localtime :
    (l : Localtime) (rest : List ℕ)
    → IsInt32 l.gmt_offset
    → read_localtime (print_localtime l ++ rest) ≡ some (l, rest)
unfolding read_localtime read_uint8 read_int32
read_localtime-print_localtime l rest h = rw (int32_lem l.gmt_offset h, bool_lem l.is_dst) refl

pub read_localtimes-print_all :
    (ls : List Localtime) (rest : List ℕ)
    → All (λ l. IsInt32 l.gmt_offset) ls
    → read_localtimes (length ls) (print_all print_localtime ls ++ rest) ≡ (ls, some rest)
unfolding read_localtimes
read_localtimes-print_all [] rest h = refl
read_localtimes-print_all (l ∷ ls) rest (h, hs) =
    let bytes = print_all print_localtime ls ++ rest in
    ap (λ bs. add_localtime (λ b. read_localtimes (length ls) b) (read_localtime bs))
      (append_assoc (print_localtime l) (print_all print_localtime ls) rest)
    ∙ ap (add_localtime (λ b. read_localtimes (length ls) b))
        (read_localtime-print_localtime l bytes h)
    ∙ ap (λ r. (l ∷ r.0, r.1)) (read_localtimes-print_all ls rest hs)

pub read_bytes_lem : (xs rest : List ℕ) → read_bytes (length xs) (xs ++ rest) ≡ some (xs, rest)
unfolding read_bytes
read_bytes_lem xs rest =
    rw
      (
        le→leb (length xs) (length (xs ++ rest)) (omega (arith, length-append xs rest)),
        take-append_eq (length xs) xs rest refl,
        drop-append_eq (length xs) xs rest refl,
      )
      refl

-- The counts of a file without leap seconds.
abbrev pub counts : ℤ → ℤ → ℤ → Counts
counts timecnt typecnt charcnt = record {
  leapcnt = pos 0;
  timecnt = timecnt;
  typecnt = typecnt;
  charcnt = charcnt;
}

abbrev print_counts : Counts → List ℕ → List ℕ
print_counts c rest =
    print_int32 (pos 0)
    ++ (print_int32 (pos 0)
        ++ (print_int32 c.leapcnt
            ++ (print_int32 c.timecnt
                ++ (print_int32 c.typecnt ++ (print_int32 c.charcnt ++ rest)))))

abbrev pub print_header : Counts → List ℕ → List ℕ
print_header c rest = codes "TZif" ++ (codes "1" ++ (replicate 15 0 ++ print_counts c rest))

pub read_header-print_header :
    (c : Counts) (rest : List ℕ)
    → IsInt32 c.leapcnt
    → IsInt32 c.timecnt
    → IsInt32 c.typecnt
    → IsInt32 c.charcnt
    → read_header (print_header c rest) ≡ some (c, rest)
unfolding read_header read_int32
read_header-print_header c rest l t y h =
    let b = print_counts c rest in
    rw
      (
        read_bytes_lem (codes "TZif") (codes "1" ++ (replicate 15 0 ++ b)),
        read_bytes_lem (codes "1") (replicate 15 0 ++ b),
        read_bytes_lem (replicate 15 0) b,
        str_eq_refl (codes "TZif"),
        int32_lem c.leapcnt l,
        int32_lem c.timecnt t,
        int32_lem c.typecnt y,
        int32_lem c.charcnt h,
      )
      refl
