-- ===== src/Buffer/Reads.antt =====
-- The operations of `Buffer` that take bytes.
use pallette.Base.{
  ℕ, ◌+◌, ◌-◌, ◌≤◌, ◌<◌, ◌≡◌, refl, ap, ◌∙◌, true, List, [], ◌++◌, none, some, arith, append-nil,
  sym, inl, inr, subst,
}
use native.Mathlib.Nat.{mod-eq_of_lt}
use pallette.Base.{◌^◌}
use pallette.Base.Tests.{leb, ltb, le→leb, lt→ltb, Bool-cases, ltb_false→le, ltb→lt, lt→leb_false}
use pallette.Base.Lists.{
  length, take, drop, length-append, take-append_eq, drop-append_eq, drop-drop, drop-take,
  length-eq-zero, take-take,
}
use pallette.Buffer.Slices.{slice, slice_lem}
use pallette.Buffer.{
  Buffer, readable_bytes, retrieve, retrieve_all, retrieve_as_string, retrieve_all_as_string,
  retrieve_until, peek, string_at, buffer_to_string,
}
use pallette.Buffer.Inv.{
  slice-contents, IsValid, contents, Holds, readable_bytes-eq, readable_bytes-length,
  retrieve_all-Holds,
}

module _ (b : Buffer) (xs : List ℕ) (h : Holds b xs) where
  pub readable_bytes-Holds : readable_bytes b ≡ length xs
  readable_bytes-Holds = readable_bytes-length h.valid ∙ ap length h.bytes

  pub length-Holds : b.write_index - b.read_index ≡ length xs
  length-Holds = sym (readable_bytes-eq h.valid) ∙ readable_bytes-Holds

drop-contents :
    (b : Buffer) (n : ℕ)
    → contents (record b { read_index = b.read_index + n }) ≡ drop n (contents b)
drop-contents b n =
    let e : b.write_index - (b.read_index + n) ≡ b.write_index - b.read_index - n = omega arith in
    rw (e, ← drop-drop n b.read_index b.buffer)
      (sym (drop-take n (b.write_index - b.read_index) (drop b.read_index b.buffer)))

-- `retrieve` takes exactly the first bytes away.
pub retrieve_lem :
    (b : Buffer) (xs ys : List ℕ)
    → Holds b (xs ++ ys)
    → (b' : Buffer) × (retrieve b (length xs) ≡ some b') × Holds b' ys
unfolding retrieve
retrieve_lem b xs ys h = elim (Bool-cases (ltb (length xs) (readable_bytes b))) [
  | inl some_left ↦ (
    record b { read_index = b.read_index + length xs },
    rw (le→leb _ _ enough, some_left),
    record {
      valid = record {
        ordered = omega (arith, ltb→lt _ _ some_left, readable_bytes-eq h.valid);
        inside = h.valid.inside;
      };
      roomy = omega (arith, h.roomy);
      bytes =
          drop-contents b (length xs)
          ∙ ap (drop (length xs)) h.bytes
          ∙ drop-append_eq (length xs) xs ys refl;
    },
  )
  | inr nothing_left ↦ (
    retrieve_all b,
    rw (le→leb _ _ enough, nothing_left),
    subst (Holds (retrieve_all b))
        (sym (length-eq-zero ys (omega (arith, all, ltb_false→le _ _ nothing_left))))
        (retrieve_all-Holds b h.valid (omega (arith, h.roomy, h.valid.ordered, h.valid.inside))),
  )
]
  where
    all : readable_bytes b ≡ length xs + length ys
    all = readable_bytes-Holds b (xs ++ ys) h ∙ length-append xs ys

    enough : length xs ≤ readable_bytes b
    enough = omega (arith, all)

-- More than is held cannot be taken: the assert fails.
pub retrieve_too_much :
    (b : Buffer) (xs : List ℕ) (n : ℕ) → Holds b xs → length xs < n → retrieve b n ≡ none
unfolding retrieve
retrieve_too_much b xs n h more =
    rw (lt→leb_false n (readable_bytes b) (omega (arith, readable_bytes-Holds b xs h)))

-- `retrieveAll` leaves nothing.
pub retrieve_all_lem : (b : Buffer) (xs : List ℕ) → Holds b xs → Holds (retrieve_all b) []
retrieve_all_lem b xs h =
    retrieve_all-Holds b h.valid (omega (arith, h.roomy, h.valid.ordered, h.valid.inside))

-- `retrieveUntil(peek() + n)` takes the first `n` bytes; an empty range fails an assert.
pub retrieve_until_lem :
    (b : Buffer) (xs ys : List ℕ) (n : ℕ)
    → Holds b (xs ++ ys)
    → 0 < length xs
    → n ≡ peek b + length xs
    → (b' : Buffer) × (retrieve_until b n ≡ some b') × Holds b' ys
unfolding retrieve_until
retrieve_until_lem b xs ys n h p e =
    let (b', r, k) = retrieve_lem b xs ys h in
    (b', rw (e, lt→ltb b.read_index (b.read_index + length xs) (omega arith), within, gap) r, k)
  where
    within : leb (b.read_index + length xs) b.write_index ≡ true
    within =
        le→leb _ _
          (omega (arith, length-Holds b (xs ++ ys) h, length-append xs ys, h.valid.ordered))

    gap : b.read_index + length xs - b.read_index ≡ length xs
    gap = omega arith

-- The bytes of a prefix stand at `peek`.
pub slice-Holds :
    (b : Buffer) (xs ys : List ℕ) (n : ℕ)
    → length xs ≡ n
    → Holds b (xs ++ ys)
    → slice b.buffer (peek b) n ≡ some xs
slice-Holds b xs ys n e h =
    slice_lem b.buffer b.read_index n
      (omega (arith, held, e, length-append xs ys, h.valid.ordered, h.valid.inside))
    ∙ ap some (
        sym (take-take n _ _ (omega (arith, held, e, length-append xs ys)))
        ∙ ap (take n) h.bytes
        ∙ take-append_eq n xs ys e)
  where
    held : b.write_index - b.read_index ≡ length (xs ++ ys)
    held = length-Holds b (xs ++ ys) h

pub string_at_lem :
    (b : Buffer) (xs ys : List ℕ) → Holds b (xs ++ ys) → string_at b (peek b) (length xs) ≡ some xs
unfolding string_at
string_at_lem b xs ys h = slice-Holds b xs ys (length xs) refl h

-- `BuffertoString` returns all, whatever space there is before it, if that fits an `int`.
pub buffer_to_string_lem :
    {b : Buffer} → IsValid b → length (contents b) < 2 ^ 31 → buffer_to_string b ≡ some (contents b)
unfolding buffer_to_string string_at
buffer_to_string_lem {b} v h =
    rw
      (
        mod-eq_of_lt fits,
        lt→ltb (readable_bytes b) (2 ^ 31) (omega (arith, readable_bytes-length v, h)),
      )
      (slice-contents v)
  where
    fits : readable_bytes b < 2 ^ 32
    fits = omega (arith, readable_bytes-length v, h)

-- `retrieveAsString` returns the first bytes, and takes them away.
pub retrieve_as_string_lem :
    (b : Buffer) (xs ys : List ℕ)
    → Holds b (xs ++ ys)
    → (b' : Buffer) × (retrieve_as_string b (length xs) ≡ some (xs, b')) × Holds b' ys
unfolding retrieve_as_string
retrieve_as_string_lem b xs ys h =
    let (b', r, k) = retrieve_lem b xs ys h in
    (b', rw (le→leb (length xs) (readable_bytes b) enough, string_at_lem b xs ys h, r), k)
  where
    enough : length xs ≤ readable_bytes b
    enough = omega (arith, readable_bytes-Holds b (xs ++ ys) h, length-append xs ys)

-- `retrieveAllAsString` returns all, and leaves nothing.
pub retrieve_all_as_string_lem :
    (b : Buffer) (xs : List ℕ)
    → Holds b xs
    → (b' : Buffer) × (retrieve_all_as_string b ≡ some (xs, b')) × Holds b' []
unfolding retrieve_all_as_string
retrieve_all_as_string_lem b xs h =
    rw (readable_bytes-Holds b xs h)
      (retrieve_as_string_lem b xs [] (subst (Holds b) (sym (append-nil xs)) h))
