-- ===== src/Queue/Circular.antt =====
-- A circular buffer keeps the last elements.
use pallette.Base.{
  ℕ, ◌+◌, ◌-◌, ◌≤◌, ◌<◌, ◌≡◌, refl, sym, ap, ◌∙◌, inl, inr, List, [], ◌∷◌, ◌++◌, arith,
  append_assoc, append-nil,
}
use pallette.Base.Tests.{ltb, Bool-cases, ltb→lt, ltb_false→le}
use pallette.Base.Lists.{length, drop, length-append, length-drop, drop-append_le, drop-drop}
use pallette.Queue.{CircularBuffer, push_back, push_all}

module _ {ℓ} {A : Type ℓ} where
  -- The last `n` elements.
  abbrev pub last : ℕ → List A → List A
  last n xs = drop (length xs - n) xs

  push_back-last :
      (b : CircularBuffer A) (x : A)
      → length b.buffer ≤ b.max_size
      → 0 < b.max_size
      → ((push_back b x).buffer ≡ last b.max_size (b.buffer ++ (x ∷ [])))
        × ((push_back b x).max_size ≡ b.max_size)
        × (length (push_back b x).buffer ≤ b.max_size)
  unfolding push_back
  push_back-last b x h p = elim (Bool-cases (ltb (length b.buffer) b.max_size)) [
    | inl room ↦ simp room (
      ap (λ n. drop n (b.buffer ++ (x ∷ [])))
          (zero_lem (length-append b.buffer (x ∷ [])) (ltb→lt _ _ room)),
      refl,
      omega (arith, length-append b.buffer (x ∷ []), ltb→lt _ _ room),
    )
    | inr none' ↦ simp none' (
      sym (drop-append_le 1 b.buffer (x ∷ []) (omega (arith, p, ltb_false→le _ _ none')))
          ∙ ap (λ n. drop n (b.buffer ++ (x ∷ [])))
              (one_lem h (length-append b.buffer (x ∷ [])) (ltb_false→le _ _ none')),
      refl,
      omega (arith, h, p, length-append (drop 1 b.buffer) (x ∷ []), length-drop 1 b.buffer),
    )
  ]
    where
      zero_lem : {n k m : ℕ} → n ≡ k + 1 → k < m → 0 ≡ n - m
      zero_lem e l = omega (arith, e, l)

      one_lem : {n k m : ℕ} → k ≤ m → n ≡ k + 1 → m ≤ k → 1 ≡ n - m
      one_lem a e l = omega (arith, a, e, l)

  last-append : (n : ℕ) (ys xs : List A) → last n (last n ys ++ xs) ≡ last n (ys ++ xs)
  last-append n ys xs =
      ap (last n) (sym (drop-append_le (length ys - n) ys xs (omega arith)))
      ∙ drop-drop (length (drop (length ys - n) (ys ++ xs)) - n) (length ys - n) (ys ++ xs)
      ∙ ap (λ k. drop k (ys ++ xs))
          (omega (arith, length-append ys xs, length-drop (length ys - n) (ys ++ xs)))

  -- Elements pushed behind one another into a circular buffer whose size is not 0, and which holds no
  -- more than its size: it then holds the last elements, as many as its size, of what it held and
  -- what was pushed.
  pub push_all-last :
      (b : CircularBuffer A) (xs : List A)
      → length b.buffer ≤ b.max_size
      → 0 < b.max_size
      → (push_all b xs).buffer ≡ last b.max_size (b.buffer ++ xs)
  unfolding push_all
  push_all-last b [] h p =
      let z : length b.buffer - b.max_size ≡ 0 = omega (arith, h) in
      sym (ap (λ ys. last b.max_size ys) (append-nil b.buffer) ∙ ap (λ k. drop k b.buffer) z)
  push_all-last b (x ∷ xs) h p =
      let (e, m, l) = push_back-last b x h p in
      push_all-last (push_back b x) xs (omega (arith, l, m)) (omega (arith, m, p))
      ∙ ap (λ n. last n ((push_back b x).buffer ++ xs)) m
      ∙ ap (λ ys. last b.max_size (ys ++ xs)) e
      ∙ last-append b.max_size (b.buffer ++ (x ∷ [])) xs
      ∙ ap (last b.max_size) (append_assoc b.buffer (x ∷ []) xs)
