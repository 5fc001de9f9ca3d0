-- ===== src/Queue/Objects.antt =====
-- pallette/ObjectPool.hpp. An object is the number of its `new`; the vector of the pool is a list
-- whose head is its back. Objects are handed out and given back one after the other, as in one
-- thread: the mutex, when there is one, is not taken by the deleter.
pub mod Fresh
mod Tests
use pallette.Base.{
  ℕ, zero, suc, ◌+◌, ◌-◌, ◌*◌, ◌/◌, ◌≡◌, Bool, true, false, List, [], ◌∷◌, ◌++◌, Option, none, some,
}
use pallette.Base.Tests.{ltb, if◌then◌else◌}
use pallette.Buffer.{◌>>=◌}

pub record SimpleObjectPool : Type 0 where
  pub max_size : ℕ
  pub use_size : ℕ
  pub pool : List ℕ
  pub created : ℕ

unfoldable pub add_object : ℕ → SimpleObjectPool → SimpleObjectPool
add_object zero p = p
add_object (suc n) p =
    add_object n (record p { pool = p.created ∷ p.pool; created = suc p.created })

unfoldable pub new : (max_size : ℕ) → SimpleObjectPool
new max_size =
    add_object (max_size / 100 + 1)
      (record { max_size = max_size; use_size = 0; pool = []; created = 0 })

-- What is done where the pool is empty; `none` is the null pointer.
unfoldable pub refill : SimpleObjectPool → Option SimpleObjectPool
refill p =
    if ltb (p.use_size * 2) p.max_size
    then some (add_object p.use_size p)
    else if ltb p.use_size p.max_size
    then some (add_object (p.max_size - p.use_size) p)
    else none

abbrev pub take_back : SimpleObjectPool → List ℕ → Option (ℕ × SimpleObjectPool)
take_back p [] = none
take_back p (x ∷ xs) = some (x, record p { pool = xs; use_size = suc p.use_size })

abbrev pub filled : SimpleObjectPool → List ℕ → Option SimpleObjectPool
filled p [] = refill p
filled p (x ∷ xs) = some p

unfoldable pub allot_object : SimpleObjectPool → Option (ℕ × SimpleObjectPool)
allot_object p = filled p p.pool >>= λ q. take_back q q.pool

-- The deleter of an object that was handed out, while the pool exists.
unfoldable pub give_back : SimpleObjectPool → ℕ → SimpleObjectPool
give_back p x = record p { pool = x ∷ p.pool; use_size = p.use_size - 1 }

-- The pools that are reached, with the objects in use.
pub data Reaches (max_size : ℕ) : List ℕ → SimpleObjectPool → Type 0 where
  begins : Reaches max_size [] (new max_size)
  allots :
      {live : List ℕ} {p q : SimpleObjectPool} {x : ℕ}
      → Reaches max_size live p
      → allot_object p ≡ some (x, q)
      → Reaches max_size (x ∷ live) q
  gives :
      {p : SimpleObjectPool} (newer older : List ℕ) (x : ℕ)
      → Reaches max_size (newer ++ (x ∷ older)) p
      → Reaches max_size (newer ++ older) (give_back p x)
