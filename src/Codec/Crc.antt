-- ===== src/Codec/Crc.antt =====
-- hash/crc32.ChecksumIEEE: the reflected polynomial 0xEDB88320, a bit at a time.
use Prim.Native.Nat.{bit_xor}
use sdim.Base.{
  ℕ, zero, suc, ◌/◌, ◌%◌, ◌^◌, ◌<◌, ◌≡◌, refl, List, [], ◌∷◌, arith, ◌==◌, if◌then◌else◌,
}

crc_bits : ℕ → ℕ → ℕ
crc_bits zero c = c
crc_bits (suc n) c = crc_bits n (if c % 2 == 1 then bit_xor (c / 2) 0xedb88320 else c / 2)

crc_update : ℕ → List ℕ → ℕ
crc_update c [] = c
crc_update c (b ∷ bs) = crc_update (crc_bits 8 (bit_xor c b)) bs

-- The result is a uint32.
pub checksum_ieee : List ℕ → ℕ
unfolding crc_bits crc_update
checksum_ieee bs = bit_xor (crc_update 0xffffffff bs) 0xffffffff % 2 ^ 32

pub checksum_ieee-lt : (bs : List ℕ) → checksum_ieee bs < 2 ^ 32
unfolding checksum_ieee
checksum_ieee-lt bs = omega arith

-- The check value of the catalogue of CRCs, for the digits 1 to 9.
checksum_ieee_digits :
    checksum_ieee (0x31 ∷ 0x32 ∷ 0x33 ∷ 0x34 ∷ 0x35 ∷ 0x36 ∷ 0x37 ∷ 0x38 ∷ 0x39 ∷ []) ≡ 0xcbf43926
unfolding checksum_ieee
checksum_ieee_digits = refl
