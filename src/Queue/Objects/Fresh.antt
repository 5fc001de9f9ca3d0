-- ===== src/Queue/Objects/Fresh.antt =====
-- An object that a pool hands out is in nobody's use, and there is one until the limit.
use pallette.Base.{
  ℕ, zero, suc, ◌+◌, ◌≤◌, ◌<◌, ◌≡◌, refl, ◌∙◌, inl, ◌⊎◌, List, ◌∷◌, Option, none, some, arith,
}
use pallette.Base.Tests.{ltb, if◌then◌else◌}
use pallette.Base.Lists.{length}
use pallette.Base.Count.{count}
use pallette.Queue.Objects.{SimpleObjectPool, add_object}

-- Every object made is in the pool or in use, once.
abbrev Once : List ℕ → SimpleObjectPool → Type 0
Once live p = (i : ℕ) → count i live + count i p.pool ≡ (if ltb i p.created then 1 else 0)

abbrev Sizes : List ℕ → SimpleObjectPool → Type 0
Sizes live p =
    (p.use_size ≡ length live)
    × (length live + length p.pool ≤ p.max_size)
    × (0 < length live + length p.pool)

add_object_lem :
    (n : ℕ) (live : List ℕ) (p : SimpleObjectPool)
    → Once live p
    → Once live (add_object n p)
      × (length (add_object n p).pool ≡ n + length p.pool)
      × ((add_object n p).use_size ≡ p.use_size)
      × ((add_object n p).max_size ≡ p.max_size)
unfolding add_object count
add_object_lem zero live p h = (h, omega arith, refl, refl)
add_object_lem (suc n) live p h =
    let q = record p { pool = p.created ∷ p.pool; created = suc p.created } in
    let (a, b, c, d) = add_object_lem n live q (λ i. ground (arith, h i)) in
    (a, omega (arith, b), c, d)

module _ (m : ℕ) where
  abbrev Good : List ℕ → SimpleObjectPool → Type 0
  Good live p = Once live p × Sizes live p × (p.max_size ≡ m)

  -- The limit is not reached, or there is nothing to hand out.
  abbrev Filled : List ℕ → Option SimpleObjectPool → Type 0
  Filled live o =
      ((q : SimpleObjectPool) × (o ≡ some q) × (0 < length q.pool) × Good live q)
      ⊎ ((length live ≡ m) × (o ≡ none))

  grown :
      (n : ℕ) (live : List ℕ) (p : SimpleObjectPool)
      → Good live p
      → 0 < n
      → length live + (n + length p.pool) ≤ m
      → Filled live (some (add_object n p))
  grown n live p (o, (u, t, z), e) h k =
      let (a, b, c, d) = add_object_lem n live p o in
      inl (
        add_object n p,
        refl,
        omega (arith, b, h),
        (a, (c ∙ u, omega (arith, b, d, e, k), omega (arith, b, h)), d ∙ e),
      )

  abbrev Taken : List ℕ → Option (ℕ × SimpleObjectPool) → Type 0
  Taken live o =
      ((x : ℕ) × (q : SimpleObjectPool) × (o ≡ some (x, q)) × (length live < m) × Good (x ∷ live) q)
      ⊎ ((length live ≡ m) × (o ≡ none))
