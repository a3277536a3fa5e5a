-- ===== src/Bytes/Checksum.antt =====
-- `crc32.ChecksumIEEE`, bit by bit: the reversed polynomial, an all-ones register, a final XOR.
use in_memory_db.Base.{
  ℕ, zero, suc, ◌/◌, ◌%◌, ◌^◌, ◌<◌, ◌≡◌, refl, List, [], ◌∷◌, arith, bit_xor, ◌==◌, if◌then◌else◌,
  replicate,
}

crc_bits : ℕ → ℕ → ℕ
crc_bits zero c = c
crc_bits (suc n) c = crc_bits n (if c % 2 == 1 then bit_xor (c / 2) 0xEDB88320 else c / 2)

crc_update : ℕ → List ℕ → ℕ
unfolding crc_bits
crc_update c [] = c
crc_update c (b ∷ bs) = crc_update (crc_bits 8 (bit_xor c b)) bs

unfoldable pub checksum_ieee : List ℕ → ℕ
unfolding crc_update
checksum_ieee bs = bit_xor (crc_update 0xFFFFFFFF bs) 0xFFFFFFFF % 2 ^ 32

pub checksum_ieee-lt : (bs : List ℕ) → checksum_ieee bs < 2 ^ 32
unfolding checksum_ieee
checksum_ieee-lt bs = omega arith

-- The check value of CRC-32: the checksum of "123456789".
check_value :
    checksum_ieee (0x31 ∷ 0x32 ∷ 0x33 ∷ 0x34 ∷ 0x35 ∷ 0x36 ∷ 0x37 ∷ 0x38 ∷ 0x39 ∷ []) ≡ 0xCBF43926
unfolding checksum_ieee
check_value = refl

-- A zeroed record header is not taken for a record.
pub checksum_ieee-zeros : checksum_ieee (replicate 17 0) ≡ 0 → ⊥
unfolding checksum_ieee
checksum_ieee-zeros h = omega arith
