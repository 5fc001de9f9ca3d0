-- ===== src/Buffer/Results.antt =====
-- What a chain of results says of its parts when it gives one.
use pallette.Base.{◌≡◌, refl, Bool, true, false, Option, none, some, arith}
use pallette.Base.Tests.{some_inj, if◌then◌else◌}
use pallette.Buffer.{if◌then◌else◌, ◌>>=◌, ◌>>◌, guard}

pub bind_some {ℓ κ} :
    {A : Type ℓ} {B : Type κ} (m : Option A) (f : A → Option B) (b : B)
    → (m >>= f) ≡ some b
    → (a : A) × (m ≡ some a) × (f a ≡ some b)
bind_some none f b e = absurd (ground (arith, e))
bind_some (some a) f b e = (a, refl, e)

pub guard-some {ℓ} :
    {A : Type ℓ} (g : Bool) (o : Option A) (b : A)
    → (guard g >> o) ≡ some b
    → (g ≡ true) × (o ≡ some b)
guard-some true o b e = (refl, e)
guard-some false o b e = absurd (ground (arith, e))

pub guarded {ℓ} :
    {A : Type ℓ} (g : Bool) (a b : A) → (guard g >> some a) ≡ some b → (g ≡ true) × (a ≡ b)
guarded g a b e = let (h, k) = guard-some g (some a) b e in (h, some_inj k)

pub none-some {ℓ κ} : {A : Type ℓ} {B : Type κ} {o : Option A} {a : A} → o ≡ none → o ≡ some a → B
none-some e f = absurd (ground (arith, e, f))

pub if_cases {ℓ κ} :
    {A : Type ℓ} (P : A → Type κ) (b : Bool) (x y : A) (z : A)
    → (if b then x else y) ≡ z
    → (b ≡ true → x ≡ z → P z)
    → (b ≡ false → y ≡ z → P z)
    → P z
if_cases P true x y z e f g = f refl e
if_cases P false x y z e f g = g refl e
