-- ===== src/Buffer/Integers/RoundTrip.antt =====
-- Integers are put in network order, and read back.
use pallette.Base.{
  ◌∙◌, ℕ, ◌<◌, ◌^◌, ◌≡◌, refl, ap, List, [], ◌∷◌, ◌++◌, Option, some, arith, subst, sym,
  append_assoc,
}
use pallette.Endian.{
  le_bytes, of_le, be_bytes, swap_bytes, host_to_network64, host_to_network32, host_to_network16,
  network_to_host64, network_to_host32, network_to_host16,
}
use pallette.Endian.Laws.{
  length-be_bytes, le_bytes-swap_bytes-eq-be_bytes, swap_bytes-of_le-be_bytes,
}
use pallette.Buffer.Slices.{slice}
use pallette.Buffer.{Buffer, ◌>>=◌, peek, append, prepend, retrieve}
use pallette.Buffer.Inv.{Holds, IsValid, contents}
use pallette.Buffer.Ops.{append_lem, prepend_lem}
use pallette.Buffer.Reads.{retrieve_lem, slice-Holds}
use pallette.Buffer.Integers.{
  append_int64, append_int32, append_int16, append_int8, peek_int64, peek_int32, peek_int16,
  peek_int8, prepend_int32, read_int64, read_int32, read_int16, read_int8,
}

-- A call that gives a buffer which holds `xs`.
abbrev pub Gives : Option Buffer → List ℕ → Type 0
Gives r xs = (b' : Buffer) × (r ≡ some b') × Holds b' xs

-- A call that gives a number, and a buffer which holds `xs`.
abbrev pub Reads : Option (ℕ × Buffer) → ℕ → List ℕ → Type 0
Reads r x xs = (b' : Buffer) × (r ≡ some (x, b')) × Holds b' xs

module _ (b : Buffer) (xs : List ℕ) (h : Holds b xs) (x : ℕ) where
  append_swapped : (n : ℕ) → Gives (append b (le_bytes n (swap_bytes n x))) (xs ++ be_bytes n x)
  append_swapped n =
      subst (λ bs. Gives (append b bs) (xs ++ be_bytes n x))
        (sym (le_bytes-swap_bytes-eq-be_bytes n x)) (append_lem b xs (be_bytes n x) h)

  -- `appendInt64`, `appendInt32` and `appendInt16` put the big-endian digits of the bit pattern
  -- behind the bytes held.
  pub append_int_lem :
      Gives (append_int64 b x) (xs ++ be_bytes 8 x)
      × Gives (append_int32 b x) (xs ++ be_bytes 4 x)
      × Gives (append_int16 b x) (xs ++ be_bytes 2 x)
  unfolding append_int64 append_int32 append_int16 host_to_network64 host_to_network32
      host_to_network16
  append_int_lem = (append_swapped 8, append_swapped 4, append_swapped 2)

module _ (b : Buffer) (x : ℕ) (ys : List ℕ) (n : ℕ) (h : Holds b (be_bytes n x ++ ys))
    (fits : x < 256 ^ n) where
  peek_swapped : (slice b.buffer (peek b) n >>= λ bs. some (swap_bytes n (of_le bs))) ≡ some x
  peek_swapped =
      rw (slice-Holds b (be_bytes n x) ys n (length-be_bytes n x) h)
        (ap some (swap_bytes-of_le-be_bytes n x fits))

  retrieve_swapped : Gives (retrieve b n) ys
  retrieve_swapped =
      subst (λ k. Gives (retrieve b k) ys) (length-be_bytes n x)
        (retrieve_lem b (be_bytes n x) ys h)

  read_swapped :
      Reads
        ((slice b.buffer (peek b) n >>= λ bs. some (swap_bytes n (of_le bs))) >>= λ result.
          retrieve b n >>= λ b'. some (result, b'))
        x
        ys
  read_swapped = let (b', e, k) = retrieve_swapped in (b', rw (peek_swapped, e), k)

-- `readInt64`, `readInt32` and `readInt16` return the number whose big-endian digits come first,
-- and take those digits away.
pub read_int_lem :
    (b : Buffer) (x : ℕ) (ys : List ℕ)
    → (Holds b (be_bytes 8 x ++ ys) → x < 2 ^ 64 → Reads (read_int64 b) x ys)
      × (Holds b (be_bytes 4 x ++ ys) → x < 2 ^ 32 → Reads (read_int32 b) x ys)
      × (Holds b (be_bytes 2 x ++ ys) → x < 2 ^ 16 → Reads (read_int16 b) x ys)
unfolding read_int64 read_int32 read_int16 peek_int64 peek_int32 peek_int16 network_to_host64
    network_to_host32 network_to_host16
read_int_lem b x ys = (read_swapped b x ys 8, read_swapped b x ys 4, read_swapped b x ys 2)

-- `peekInt32` reads the same number and leaves the buffer as it is.
pub peek_int32_lem :
    (b : Buffer) (x : ℕ) (ys : List ℕ)
    → Holds b (be_bytes 4 x ++ ys)
    → x < 2 ^ 32
    → peek_int32 b ≡ some x
unfolding peek_int32 network_to_host32
peek_int32_lem b x ys h fits = peek_swapped b x ys 4 h fits

-- `prependInt32` puts the digits before the bytes held.
pub prepend_int32_lem :
    (b : Buffer) (x : ℕ) (xs : List ℕ)
    → Holds b xs
    → (b' : Buffer) × (prepend_int32 b x ≡ some b')
      × IsValid b'
      × (contents b' ≡ be_bytes 4 x ++ xs)
unfolding prepend_int32 host_to_network32
prepend_int32_lem b x xs h =
    subst
      (λ bs.
        (b' : Buffer) × (prepend b bs ≡ some b') × IsValid b' × (contents b' ≡ be_bytes 4 x ++ xs))
      (sym (le_bytes-swap_bytes-eq-be_bytes 4 x))
      (let (b', e, v, c) =
          prepend_lem b (be_bytes 4 x) h.valid (omega (arith, length-be_bytes 4 x, h.roomy)) in
        (b', e, v, c ∙ ap (λ t. be_bytes 4 x ++ t) h.bytes))

module _ (b : Buffer) (x : ℕ) (h8 : x < 2 ^ 8) where
  append_int8_lem : (xs : List ℕ) → Holds b xs → Gives (append_int8 b x) (xs ++ x ∷ [])
  unfolding append_int8
  append_int8_lem xs h =
      subst (λ bs. Gives (append b bs) (xs ++ x ∷ [])) (sym one_byte) (append_lem b xs (x ∷ []) h)
    where
      one_byte : le_bytes 1 x ≡ x ∷ []
      one_byte = unfold le_bytes in ap (λ k. k ∷ []) (omega arith)

  read_int8_lem : (ys : List ℕ) → Holds b (x ∷ ys) → Reads (read_int8 b) x ys
  unfolding read_int8 peek_int8
  read_int8_lem ys h =
      let (b', e, k) = retrieve_lem b (x ∷ []) ys h in
      (b', rw (slice-Holds b (x ∷ []) ys 1 refl h, e, of_le_one), k)
    where
      of_le_one : of_le (x ∷ []) ≡ x
      of_le_one = unfold of_le in omega arith

-- A record of one integer of each size, written and read back.
abbrev pub write_record : Buffer → ℕ → ℕ → ℕ → ℕ → Option Buffer
write_record b w x y z = do
  b₁ ← append_int64 b w
  b₂ ← append_int32 b₁ x
  b₃ ← append_int16 b₂ y
  append_int8 b₃ z

abbrev pub read_record : Buffer → Option (ℕ × ℕ × ℕ × ℕ × Buffer)
read_record b = do
  (w, b₁) ← read_int64 b
  (x, b₂) ← read_int32 b₁
  (y, b₃) ← read_int16 b₂
  (z, b₄) ← read_int8 b₃
  some (w, x, y, z, b₄)

abbrev record_bytes : ℕ → ℕ → ℕ → ℕ → List ℕ
record_bytes w x y z = be_bytes 8 w ++ (be_bytes 4 x ++ (be_bytes 2 y ++ (z ∷ [])))

module _ (w x y z : ℕ) (hz : z < 2 ^ 8) where
  write_record_lem :
      (b : Buffer) → Holds b [] → Gives (write_record b w x y z) (record_bytes w x y z)
  write_record_lem b h =
      let (b₁, e₁, h₁) = (append_int_lem b [] h w).0 in
      let (b₂, e₂, h₂) = (append_int_lem b₁ _ h₁ x).1 in
      let (b₃, e₃, h₃) = (append_int_lem b₂ _ h₂ y).2 in
      let (b₄, e₄, h₄) = append_int8_lem b₃ z hz _ h₃ in
      (b₄, rw (e₁, e₂, e₃, e₄), subst (Holds b₄) (simp append_assoc) h₄)

  module _ (hw : w < 2 ^ 64) (hx : x < 2 ^ 32) (hy : y < 2 ^ 16) where
    -- Every integer is read back as it was written, in the order of writing, and no byte is left.
    pub read_record-write_record :
        (b : Buffer)
        → Holds b []
        → (b' : Buffer) × ((write_record b w x y z >>= read_record) ≡ some (w, x, y, z, b'))
          × Holds b' []
    read_record-write_record b h =
        let (b₀, e₀, h₀) = write_record_lem b h in
        let (b₁, e₁, h₁) = (read_int_lem b₀ w _).0 h₀ hw in
        let (b₂, e₂, h₂) = (read_int_lem b₁ x _).1 h₁ hx in
        let (b₃, e₃, h₃) = (read_int_lem b₂ y _).2 h₂ hy in
        let (b₄, e₄, h₄) = read_int8_lem b₃ z hz [] h₃ in (b₄, rw (e₀, e₁, e₂, e₃, e₄), h₄)
