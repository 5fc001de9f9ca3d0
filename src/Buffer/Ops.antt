-- ===== src/Buffer/Ops.antt =====
-- The operations of `Buffer` that add bytes to those that it holds.
use pallette.Base.{
  ℕ, ◌+◌, ◌-◌, ◌≤◌, ◌<◌, ◌≡◌, ap, ◌∙◌, List, ◌++◌, none, some, arith, append_assoc, inl, inr, subst,
}
use pallette.Base.Tests.{
  leb, ltb, le→leb, lt→ltb, Bool-cases, ltb_false→le, lt→leb_false, leb→le, leb_false→lt,
}
use pallette.Base.Lists.{
  length, take, drop, length-take, drop-append_eq, take-append-drop, take-append_add,
}
use pallette.Buffer.Slices.{write_at_lem, written, length-written, take-drop-written}
use pallette.Buffer.{
  Buffer, pre_prepend, writable_bytes, make_space, ensure_writable_bytes, has_written, append,
  prepend, received, iov_room, read_fd,
}
use pallette.Buffer.Inv.{IsValid, contents, Holds, writable_bytes-eq, make_space_lem}

-- A write at the write index that fits extends the bytes held.
module _ (b : Buffer) (ys : List ℕ) (v : IsValid b)
    (fits : b.write_index + length ys ≤ length b.buffer) where
  abbrev extended : Buffer
  extended = record b {
    buffer = written b.buffer b.write_index ys;
    write_index = b.write_index + length ys;
  }

  extended-IsValid : IsValid extended
  extended-IsValid = record {
    ordered = omega (arith, v.ordered);
    inside = omega (arith, length-written b.buffer b.write_index ys fits);
  }

  contents-extended : contents extended ≡ contents b ++ ys
  contents-extended =
      take-drop-written b.buffer b.write_index ys fits b.read_index (b.write_index - b.read_index) _
        (omega (arith, v.ordered)) (omega (arith, v.ordered))

  extended-Holds : (xs : List ℕ) → Holds b xs → Holds extended (xs ++ ys)
  extended-Holds xs h = record {
    valid = extended-IsValid;
    roomy = h.roomy;
    bytes = contents-extended ∙ ap (λ zs. zs ++ ys) h.bytes;
  }

-- `ensureWritableBytes` succeeds, keeps the bytes, and leaves room for `n` more.
pub ensure_writable_bytes_lem :
    (b : Buffer) (xs : List ℕ) (n : ℕ)
    → Holds b xs
    → (b' : Buffer) × (ensure_writable_bytes b n ≡ some b')
      × Holds b' xs
      × (b'.write_index + n ≤ length b'.buffer)
unfolding ensure_writable_bytes
ensure_writable_bytes_lem b xs n h = elim (Bool-cases (ltb (writable_bytes b) n)) [
  | inl short ↦
      let (b', e, k, room) = make_space_lem b n h.valid h.roomy in
      (b', rw short e, subst (Holds b') h.bytes k, omega (arith, k.valid.inside))
  | inr wide ↦ (
    b,
    rw wide,
    h,
    omega (arith, ltb_false→le _ _ wide, writable_bytes-eq h.valid, h.valid.inside),
  )
]

-- `append` always succeeds on a buffer in good order, and adds its bytes behind those held.
pub append_lem :
    (b : Buffer) (xs ys : List ℕ)
    → Holds b xs
    → (b' : Buffer) × (append b ys ≡ some b') × Holds b' (xs ++ ys)
unfolding append has_written
append_lem b xs ys h =
    let (b', e, k, room) = ensure_writable_bytes_lem b xs (length ys) h in
    (
      extended b' ys k.valid room,
      rw (e, write_at_lem b'.buffer b'.write_index ys room),
      extended-Holds b' ys k.valid room xs k,
    )

-- After a `prepend` the read index is below 8, and an `append` that does not fit fails an assert.
pub append_after_prepend :
    (b : Buffer) (ys : List ℕ)
    → IsValid b
    → b.read_index < pre_prepend
    → length b.buffer < b.write_index + length ys
    → append b ys ≡ none
unfolding append ensure_writable_bytes make_space
append_after_prepend b ys v low short = rw (
  lt→ltb (writable_bytes b) (length ys) (omega (arith, writable_bytes-eq v)),
  lt→leb_false pre_prepend b.read_index low,
)

-- `prepend` puts its bytes before those held, where the space before them suffices.
pub prepend_lem :
    (b : Buffer) (xs : List ℕ)
    → IsValid b
    → length xs ≤ b.read_index
    → (b' : Buffer) × (prepend b xs ≡ some b') × IsValid b' × (contents b' ≡ xs ++ contents b)
unfolding prepend
prepend_lem b xs v fits = (
  record b { buffer = written b.buffer start xs; read_index = start },
  rw (le→leb _ _ fits, write_at_lem b.buffer start xs inside),
  record {
    ordered = omega (arith, v.ordered);
    inside = omega (arith, v.inside, length-written b.buffer start xs inside);
  },
  front,
)
  where
    start : ℕ
    start = b.read_index - length xs

    inside : start + length xs ≤ length b.buffer
    inside = omega (arith, v.ordered, v.inside)

    back : start + length xs ≡ b.read_index
    back = omega arith

    front :
        contents (record b { buffer = written b.buffer start xs; read_index = start })
        ≡ xs ++ contents b
    front =
        rw
          (
            drop-append_eq start (take start b.buffer) (xs ++ drop (start + length xs) b.buffer)
                (omega (arith, length-take start b.buffer)),
            back,
          )
          (take-append_add (b.write_index - b.read_index) _ xs (drop b.read_index b.buffer)
            (omega (arith, v.ordered)))

-- The vector filled up to its end.
abbrev filled : Buffer → List ℕ → Buffer
filled b ys = record b { buffer = written b.buffer b.write_index ys; write_index = length b.buffer }

filled-Holds :
    (b : Buffer) (xs ys : List ℕ)
    → Holds b xs
    → b.write_index + length ys ≡ length b.buffer
    → Holds (filled b ys) (xs ++ ys)
filled-Holds b xs ys h e =
    subst
      (λ w.
        Holds (record b { buffer = written b.buffer b.write_index ys; write_index = w }) (xs ++ ys))
      e (extended-Holds b ys h.valid (omega (arith, e)) xs h)

module _ (b : Buffer) (xs ys : List ℕ) (h : Holds b xs) (outer : writable_bytes b < length ys) where
  abbrev front_part : List ℕ
  front_part = take (writable_bytes b) ys

  fills : b.write_index + length front_part ≡ length b.buffer
  fills =
      omega
        (arith, length-take (writable_bytes b) ys, outer, writable_bytes-eq h.valid, h.valid.inside)

  read_fd_outer :
      (b' : Buffer)
      → length ys ≤ iov_room b
      → append (filled b front_part) (drop (writable_bytes b) ys) ≡ some b'
      → read_fd b (received ys) ≡ some (b', none)
  unfolding read_fd
  read_fd_outer b' room e = rw (
    lt→leb_false (length ys) (writable_bytes b) outer,
    le→leb _ _ room,
    write_at_lem b.buffer b.write_index front_part (omega (arith, fills)),
    e,
  )

-- Whatever `readv` stores in the room that it was handed, in the vector or in the second buffer, is
-- held behind what was there, in order, and no error is reported.
pub read_fd_lem :
    (b : Buffer) (xs ys : List ℕ)
    → Holds b xs
    → length ys ≤ iov_room b
    → (b' : Buffer) × (read_fd b (received ys) ≡ some (b', none)) × Holds b' (xs ++ ys)
unfolding read_fd
read_fd_lem b xs ys h fits = elim (Bool-cases (leb (length ys) (writable_bytes b))) [
  | inl inner ↦
      let room : b.write_index + length ys ≤ length b.buffer =
        omega (arith, leb→le _ _ inner, writable_bytes-eq h.valid, h.valid.inside) in
      (
        extended b ys h.valid room,
        rw (inner, write_at_lem b.buffer b.write_index ys room),
        extended-Holds b ys h.valid room xs h,
      )
  | inr outer ↦
      let more : writable_bytes b < length ys = leb_false→lt _ _ outer in
      let start = take (writable_bytes b) ys in
      let rest = drop (writable_bytes b) ys in
      let (b', e, r) =
        append_lem (filled b start) (xs ++ start) rest
          (filled-Holds b xs start h (fills b xs ys h more)) in
      (
        b',
        read_fd_outer b xs ys h more b' fits e,
        subst (Holds b')
            (append_assoc xs start rest ∙ ap (◌++◌ xs) (take-append-drop (writable_bytes b) ys)) r,
      )
]
