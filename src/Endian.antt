-- ===== src/Endian.antt =====
-- pallette/Endian.h on a little-endian host: an integer of `n` bytes is a number below 256 ^ n, the
-- bytes of the object stand lowest first, and `htobe` and `betoh` of endian.h reverse them.
pub mod Laws
use pallette.Base.{ℕ, zero, suc, ◌+◌, ◌*◌, ◌/◌, ◌%◌, ◌^◌, List, [], ◌∷◌}
use mathlib.Core.List.{reverse}

-- The bytes of the object.
unfoldable pub le_bytes : ℕ → ℕ → List ℕ
le_bytes zero x = []
le_bytes (suc n) x = (x % 256) ∷ le_bytes n (x / 256)

unfoldable pub of_le : List ℕ → ℕ
of_le [] = 0
of_le (b ∷ bs) = b + 256 * of_le bs

pub swap_bytes : ℕ → ℕ → ℕ
swap_bytes n x = of_le (reverse (le_bytes n x))

unfoldable pub host_to_network64 : ℕ → ℕ
host_to_network64 host64 = swap_bytes 8 host64

unfoldable pub host_to_network32 : ℕ → ℕ
host_to_network32 host32 = swap_bytes 4 host32

unfoldable pub host_to_network16 : ℕ → ℕ
host_to_network16 host16 = swap_bytes 2 host16

unfoldable pub network_to_host64 : ℕ → ℕ
network_to_host64 net64 = swap_bytes 8 net64

unfoldable pub network_to_host32 : ℕ → ℕ
network_to_host32 net32 = swap_bytes 4 net32

unfoldable pub network_to_host16 : ℕ → ℕ
network_to_host16 net16 = swap_bytes 2 net16

-- The big-endian digits of a number, highest first: what goes over the network.
unfoldable pub be_bytes : ℕ → ℕ → List ℕ
be_bytes zero x = []
be_bytes (suc n) x = (x / 256 ^ n % 256) ∷ be_bytes n x
