-- ===== src/Time/Zone/File/RoundTrip.antt =====
-- A time zone file that is printed from its contents is read back.
use pallette.Base.{
  ℕ, suc, ◌+◌, ◌^◌, ◌<◌, ◌≡◌, refl, ap, ◌∙◌, subst, false, List, [], ◌∷◌, ◌++◌, map, some, arith,
}
use pallette.Base.Tests.{ltb}
use pallette.Base.Int.{ℤ, pos, ◌+ℤ◌}
use pallette.Base.Lists.{length, get_elem?, All}
use pallette.Time.Zone.{Transition, Localtime, Data}
use pallette.Time.Zone.File.{
  read_int32, read_uint8, read_many, fill_transitions, Counts, read_names, fill, read_rest,
  read_indices, read_body, read_time_zone_file,
}
use pallette.Time.Zone.File.Parts.{
  IsInt32, print_int32, read_int32-print_int32, print_all, read_many-print_all, print_localtime,
  read_localtimes-print_all, read_bytes_lem, counts, print_header, read_header-print_header,
}

-- A transition of a file: its local time is that of its index.
pub record IsTransition (ls : List Localtime) (t : Transition) : Type 0 where
  pub in_range : IsInt32 t.gmttime
  pub local : Localtime
  pub at : get_elem? ls t.localtime_idx ≡ some local
  pub shifted : t.localtime ≡ t.gmttime +ℤ local.gmt_offset

-- What a file can hold.
pub record IsPrintable (d : Data) : Type 0 where
  pub moments : All (IsTransition d.localtimes) d.transitions
  pub offsets : All (λ l. IsInt32 l.gmt_offset) d.localtimes
  pub few_transitions : length d.transitions < 2 ^ 31
  pub few_localtimes : length d.localtimes < 2 ^ 31
  pub few_names : length d.abbreviation < 2 ^ 31

abbrev print_uint8 : ℕ → List ℕ
print_uint8 n = n ∷ []

abbrev gmttimes : List Transition → List ℤ
gmttimes ts = map (λ t. t.gmttime) ts

abbrev indices : List Transition → List ℕ
indices ts = map (λ t. t.localtime_idx) ts

abbrev counts_of : Data → Counts
counts_of d =
    counts (pos (length d.transitions)) (pos (length d.localtimes)) (pos (length d.abbreviation))

abbrev pub print_file : Data → List ℕ
print_file d = print_header (counts_of d) (
    print_all print_int32 (gmttimes d.transitions)
    ++ (print_all print_uint8 (indices d.transitions)
        ++ (print_all print_localtime d.localtimes ++ (d.abbreviation ++ []))))

fill_transitions_lem :
    (ls : List Localtime) (ts : List Transition)
    → All (IsTransition ls) ts
    → fill_transitions ls (gmttimes ts) (indices ts) ≡ some ts
unfolding fill_transitions
fill_transitions_lem ls [] a = refl
fill_transitions_lem ls (t ∷ ts) (h, a) = rw (h.at, fill_transitions_lem ls ts a, ← h.shifted) refl

length-map : {A B : Type 0} (f : A → B) (xs : List A) → length (map f xs) ≡ length xs
length-map f [] = refl
length-map f (x ∷ xs) = ap suc (length-map f xs)

moments_in_range :
    (ls : List Localtime) (ts : List Transition)
    → All (IsTransition ls) ts
    → All IsInt32 (gmttimes ts)
moments_in_range ls [] a = tt
moments_in_range ls (t ∷ ts) (h, a) = (h.in_range, moments_in_range ls ts a)

read_uint8_lem :
    (x : ℕ) (rest : List ℕ) → Unit {0} → read_uint8 (print_uint8 x ++ rest) ≡ some (x, rest)
unfolding read_uint8
read_uint8_lem x rest h = refl

no_bound : (is : List ℕ) → All (λ i. Unit {0}) is
no_bound [] = tt
no_bound (i ∷ is) = (tt, no_bound is)

fill_lem :
    (d : Data)
    → IsPrintable d
    → fill
        (counts_of d)
        (gmttimes d.transitions)
        (indices d.transitions)
        (d.localtimes, some (d.abbreviation ++ []))
      ≡ some d
unfolding fill read_names
fill_lem d p =
    rw (fill_transitions_lem d.localtimes d.transitions p.moments, read_bytes_lem d.abbreviation [])
      refl

read_rest_lem :
    (d : Data)
    → IsPrintable d
    → read_rest (counts_of d) (gmttimes d.transitions) (
        some
          (indices d.transitions, print_all print_localtime d.localtimes ++ (d.abbreviation ++ [])))
      ≡ some d
unfolding read_rest
read_rest_lem d p =
    ap (fill (counts_of d) (gmttimes d.transitions) (indices d.transitions))
      (read_localtimes-print_all d.localtimes (d.abbreviation ++ []) p.offsets)
    ∙ fill_lem d p

body_lem :
    (d : Data) (b : List ℕ)
    → read_body (some (counts_of d, b))
      ≡ read_indices (counts_of d) (read_many read_int32 (length d.transitions) b)
unfolding read_body
body_lem d b = rw (not_negative (length d.transitions)) refl
  where
    not_negative : (n : ℕ) → ltb (n + 0) 0 ≡ false
    not_negative n = ground arith

-- A time zone file printed from data that a file can hold is read back: the transitions, with
-- their local times, the local times and the abbreviations.
pub read_time_zone_file-print_file :
    (d : Data) → IsPrintable d → read_time_zone_file (some (print_file d)) ≡ some d
unfolding read_time_zone_file read_body read_indices
read_time_zone_file-print_file d p =
    let n = length d.transitions in
    let names = print_all print_localtime d.localtimes ++ (d.abbreviation ++ []) in
    let idxs = print_all print_uint8 (indices d.transitions) ++ names in
    ap read_body (
      read_header-print_header (counts_of d)
        (print_all print_int32 (gmttimes d.transitions) ++ idxs) (omega arith) p.few_transitions
        p.few_localtimes p.few_names)
    ∙ body_lem d (print_all print_int32 (gmttimes d.transitions) ++ idxs)
    ∙ ap (read_indices (counts_of d)) (times n (length-map (λ t. t.gmttime) d.transitions) idxs)
    ∙ ap (read_rest (counts_of d) (gmttimes d.transitions))
        (indexes n (length-map (λ t. t.localtime_idx) d.transitions) names)
    ∙ read_rest_lem d p
  where
    times :
        (n : ℕ)
        → length (gmttimes d.transitions) ≡ n
        → (rest : List ℕ)
        → read_many read_int32 n (print_all print_int32 (gmttimes d.transitions) ++ rest)
          ≡ some (gmttimes d.transitions, rest)
    times n e rest =
        subst
          (λ k.
            read_many read_int32 k (print_all print_int32 (gmttimes d.transitions) ++ rest)
            ≡ some (gmttimes d.transitions, rest))
          e
          (read_many-print_all read_int32 print_int32 IsInt32 read_int32-print_int32
            (gmttimes d.transitions) rest (moments_in_range d.localtimes d.transitions p.moments))

    indexes :
        (n : ℕ)
        → length (indices d.transitions) ≡ n
        → (rest : List ℕ)
        → read_many read_uint8 n (print_all print_uint8 (indices d.transitions) ++ rest)
          ≡ some (indices d.transitions, rest)
    indexes n e rest =
        subst
          (λ k.
            read_many read_uint8 k (print_all print_uint8 (indices d.transitions) ++ rest)
            ≡ some (indices d.transitions, rest))
          e
          (read_many-print_all read_uint8 print_uint8 (λ i. Unit {0}) read_uint8_lem
            (indices d.transitions) rest (no_bound (indices d.transitions)))
