-- ===== src/Buffer/Inv.antt =====
-- The representation invariant of `Buffer`, and the bytes that it holds.
use pallette.Base.{ℕ, ◌+◌, ◌-◌, ◌≤◌, ◌≡◌, refl, ◌∙◌, List, [], some, arith, sym, inl, inr}
use pallette.Base.Tests.{ltb, if◌then◌else◌, le→leb, Bool-cases, ltb_false→le}
use pallette.Base.Lists.{
  length, take, drop, length-append, length-take, length-drop, replicate, length-replicate,
  take-append_le, drop-append_le, take-take, drop-take,
}
use pallette.Buffer.Slices.{
  slice, slice_lem, length-slice, write_at_lem, written, length-written, take-drop-written,
}
use pallette.Buffer.{
  Buffer, pre_prepend, new, readable_bytes, writable_bytes, prependable_bytes, resize, make_space,
  retrieve_all,
}

pub record IsValid (b : Buffer) : Type 0 where
  pub ordered : b.read_index ≤ b.write_index
  pub inside : b.write_index ≤ length b.buffer

-- Nothing has been prepended since the read index was last set.
abbrev pub IsRoomy : Buffer → Type 0
IsRoomy b = pre_prepend ≤ b.read_index

-- The readable bytes.
abbrev pub contents : Buffer → List ℕ
contents b = take (b.write_index - b.read_index) (drop b.read_index b.buffer)

pub readable_bytes-eq : {b : Buffer} → IsValid b → readable_bytes b ≡ b.write_index - b.read_index
unfolding readable_bytes
readable_bytes-eq {b} v = ground arith

pub writable_bytes-eq :
    {b : Buffer} → IsValid b → writable_bytes b ≡ length b.buffer - b.write_index
unfolding writable_bytes
writable_bytes-eq {b} v = ground arith

prependable_bytes-eq : (b : Buffer) → prependable_bytes b ≡ b.read_index
unfolding prependable_bytes
prependable_bytes-eq b = refl

pub length-contents : {b : Buffer} → IsValid b → length (contents b) ≡ b.write_index - b.read_index
length-contents {b} v = length-slice b.buffer b.read_index _ (omega arith)

-- `readableBytes` counts the bytes held.
pub readable_bytes-length : {b : Buffer} → IsValid b → readable_bytes b ≡ length (contents b)
readable_bytes-length {b} v = readable_bytes-eq v ∙ sym (length-contents v)

pub slice-contents :
    {b : Buffer} → IsValid b → slice b.buffer b.read_index (readable_bytes b) ≡ some (contents b)
slice-contents {b} v = rw (readable_bytes-eq v) (slice_lem b.buffer b.read_index _ (omega arith))

-- The state of a buffer, as its clients see it.
pub record Holds (b : Buffer) (xs : List ℕ) : Type 0 where
  pub valid : IsValid b
  pub roomy : IsRoomy b
  pub bytes : contents b ≡ xs

pub new-Holds : (n : ℕ) → Holds (new n) []
unfolding new
new-Holds n = record {
  valid = record {
    ordered = omega arith;
    inside = omega (arith, length-replicate {A = ℕ} (8 + n) 0);
  };
  roomy = omega arith;
  bytes = refl;
}

pub retrieve_all-Holds :
    (b : Buffer) → IsValid b → pre_prepend ≤ length b.buffer → Holds (retrieve_all b) []
unfolding retrieve_all
retrieve_all-Holds b v h = record {
  valid = record { ordered = omega arith; inside = h };
  roomy = omega arith;
  bytes = refl;
}

module _ (b : Buffer) (n : ℕ) (v : IsValid b) (room : IsRoomy b) where
  moved : List ℕ
  moved = written b.buffer pre_prepend (contents b)

  grown : List ℕ
  grown =
      if ltb (writable_bytes b + prependable_bytes b) (n + pre_prepend)
      then resize moved (pre_prepend + readable_bytes b + n)
      else moved

  spaced : Buffer
  spaced = record {
    buffer = grown;
    read_index = pre_prepend;
    write_index = pre_prepend + readable_bytes b;
  }

  fits : pre_prepend + length (contents b) ≤ length b.buffer
  fits = omega (arith, length-contents v)

  length-moved : length moved ≡ length b.buffer
  unfolding moved
  length-moved = length-written b.buffer pre_prepend (contents b) fits

  moved_bytes : take (length (contents b)) (drop pre_prepend moved) ≡ contents b
  unfolding moved
  moved_bytes =
      take-drop-written b.buffer pre_prepend (contents b) fits pre_prepend 0 _ (omega arith)
        (omega arith)

  make_space-eq : make_space b n ≡ some spaced
  unfolding make_space spaced grown moved
  make_space-eq =
      rw (le→leb _ _ room, slice-contents v, write_at_lem b.buffer pre_prepend (contents b) fits)

  length-resize : (xs : List ℕ) (k : ℕ) → length (resize xs k) ≡ k
  unfolding resize
  length-resize xs k = omega (
    arith,
    length-append (take k xs) (replicate (k - length xs) 0),
    length-take k xs,
    length-replicate {A = ℕ} (k - length xs) 0,
  )

  resized_bytes :
      (k : ℕ)
      → pre_prepend + length (contents b) ≤ k
      → take (length (contents b)) (drop pre_prepend (resize moved k)) ≡ contents b
  unfolding resize
  resized_bytes k h =
      rw
        (
          drop-append_le pre_prepend (take k moved) (replicate (k - length moved) 0)
              (omega (arith, length-take k moved, length-moved, fits)),
          take-append_le (length (contents b)) (drop pre_prepend (take k moved))
              (replicate (k - length moved) 0)
              (omega (
                arith,
                length-drop pre_prepend (take k moved),
                length-take k moved,
                length-moved,
                fits,
              )),
          drop-take pre_prepend k moved,
          take-take (length (contents b)) (k - pre_prepend) (drop pre_prepend moved) (omega arith),
        )
        moved_bytes

  -- The bytes are kept, and `n` more fit behind them.
  spaced_lem : Holds spaced (contents b) × (n ≤ length spaced.buffer - spaced.write_index)
  unfolding spaced grown
  spaced_lem = elim (Bool-cases (ltb (writable_bytes b + prependable_bytes b) (n + pre_prepend))) [
    | inl short ↦ rw short (
      record {
        valid = record {
          ordered = omega arith;
          inside = omega (arith, length-resize moved (pre_prepend + readable_bytes b + n));
        };
        roomy = omega arith;
        bytes =
            kept (resize moved (pre_prepend + readable_bytes b + n))
              (resized_bytes _ (omega (arith, readable_bytes-length v)));
      },
      omega (arith, length-resize moved (pre_prepend + readable_bytes b + n)),
    )
    | inr wide ↦ rw wide (
      record {
        valid = record {
          ordered = omega arith;
          inside = omega (arith, length-moved, fits, readable_bytes-length v);
        };
        roomy = omega arith;
        bytes = kept moved moved_bytes;
      },
      omega (
        arith,
        length-moved,
        ltb_false→le _ _ wide,
        writable_bytes-eq v,
        readable_bytes-eq v,
        prependable_bytes-eq b,
      ),
    )
  ]
    where
      kept :
          (xs : List ℕ)
          → take (length (contents b)) (drop pre_prepend xs) ≡ contents b
          → take (pre_prepend + readable_bytes b - pre_prepend) (drop pre_prepend xs) ≡ contents b
      kept xs e =
          let c : pre_prepend + readable_bytes b - pre_prepend ≡ length (contents b) =
            omega (arith, readable_bytes-length v) in
          rw c e

-- `makeSpace` succeeds, keeps the bytes and leaves room for `n` more behind them.
pub make_space_lem :
    (b : Buffer) (n : ℕ)
    → IsValid b
    → IsRoomy b
    → (b' : Buffer) × (make_space b n ≡ some b')
      × Holds b' (contents b)
      × (n ≤ length b'.buffer - b'.write_index)
make_space_lem b n v room = (
  spaced b n v room,
  make_space-eq b n v room,
  (spaced_lem b n v room).0,
  (spaced_lem b n v room).1,
)
