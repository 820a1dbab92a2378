-- ===== src/Storage/Crc.antt =====
-- hash/crc32 of the Go standard library: the IEEE checksum that frames, headers and snapshots
-- carry. A state is a uint32.
use Prim.Native.Nat.{bit_xor}
use mem_hop.Prelude.{
  ℕ, zero, suc, ◌/◌, ◌%◌, ◌^◌, ◌<◌, ◌≡◌, refl, List, [], ◌∷◌, arith, ◌==◌, if◌then◌else◌,
}

-- One bit of the reflected polynomial division.
crc_bit : ℕ → ℕ
crc_bit c = if c % 2 == 1 then bit_xor (c / 2) 0xEDB88320 else c / 2

crc_bits : ℕ → ℕ → ℕ
crc_bits zero c = c
crc_bits (suc n) c = crc_bits n (crc_bit c)

crc_bytes : ℕ → List ℕ → ℕ
crc_bytes c [] = c
crc_bytes c (b ∷ bs) = crc_bytes (bit_xor (crc_bits 8 (bit_xor (c % 256) b)) (c / 256)) bs

-- crc32.Update(crc, crc32.IEEETable, data); crc32.ChecksumIEEE(data) is update 0 data.
unfoldable pub update : ℕ → List ℕ → ℕ
unfolding crc_bit crc_bits crc_bytes
update c bytes = bit_xor (crc_bytes (bit_xor c 0xFFFFFFFF) bytes) 0xFFFFFFFF % 2 ^ 32

pub update-lt : (c : ℕ) (bytes : List ℕ) → update c bytes < 256 ^ 4
unfolding update
update-lt c bytes = omega arith

-- The published check value, of the nine characters "123456789".
update_check :
    update 0 (0x31 ∷ 0x32 ∷ 0x33 ∷ 0x34 ∷ 0x35 ∷ 0x36 ∷ 0x37 ∷ 0x38 ∷ 0x39 ∷ []) ≡ 0xCBF43926
unfolding update
update_check = refl
