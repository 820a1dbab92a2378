-- ===== src/Prelude/Bytes.antt =====
-- encoding/binary in little-endian order, over lists of byte values.

use Prim.Native.Nat.{ℕ, zero, suc, ◌+◌, ◌*◌, ◌/◌, ◌%◌, ◌^◌, ◌<◌}
use mathlib.Core.Path.{◌≡◌, refl, ap}
use mathlib.Core.List.{List, [], ◌∷◌}
use native.Mathlib.Omega.{arith}
use native.Mathlib.Nat.{pow-suc}
use mem_hop.Prelude.Lists.{length}

-- binary.LittleEndian.PutUint16/32/64 into `n` bytes.
unfoldable pub put_uint : ℕ → ℕ → List ℕ
put_uint zero v = []
put_uint (suc n) v = (v % 256) ∷ put_uint n (v / 256)

-- binary.LittleEndian.Uint16/32/64 of all the bytes given.
unfoldable pub uint : List ℕ → ℕ
uint [] = 0
uint (b ∷ bs) = b + 256 * uint bs

pub length-put_uint : (n v : ℕ) → length (put_uint n v) ≡ n
unfolding put_uint
length-put_uint zero v = refl
length-put_uint (suc n) v = ap suc (length-put_uint n (v / 256))

pub uint-put_uint : (n v : ℕ) → v < 256 ^ n → uint (put_uint n v) ≡ v
unfolding put_uint uint
uint-put_uint zero v h = omega arith
uint-put_uint (suc n) v h =
    let small : v / 256 < 256 ^ n = omega (arith, pow-suc 256 n) in
    omega (arith, uint-put_uint n (v / 256) small)
