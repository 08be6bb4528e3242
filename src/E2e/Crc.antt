-- ===== src/E2e/Crc.antt =====
-- e2e_protection.cpp: `CalculateCrc32` and the bytes that it is taken of.
use Prim.Native.Nat.{bit_xor, bit_and}
use open_autosar.Base.{
  ℕ, zero, suc, ◌-◌, ◌/◌, ◌%◌, ◌<◌, ◌≡◌, refl, List, [], ◌∷◌, set, drop, u32, u32_mod, arith,
}
use open_autosar.E2e.{FrameHeader}
use open_autosar.E2e.Frame.{serialize_frame_with_crc}

-- One round of the inner loop; the mask is `0U - (crc & 1U)`.
unfoldable pub crc_bit : ℕ → ℕ
crc_bit crc = bit_xor (crc / 2) (bit_and 0xEDB88320 (u32 (u32_mod - crc % 2)))

unfoldable pub crc_bits : ℕ → ℕ → ℕ
crc_bits zero crc = crc
crc_bits (suc n) crc = crc_bits n (crc_bit crc)

-- The outer loop.
unfoldable pub crc_loop : ℕ → List ℕ → ℕ
crc_loop crc [] = crc
crc_loop crc (byte ∷ bytes) = crc_loop (crc_bits 8 (bit_xor crc byte)) bytes

unfoldable pub calculate_crc32 : List ℕ → ℕ
unfolding crc_loop crc_bits crc_bit
calculate_crc32 bytes = u32_mod - 1 - crc_loop 0xFFFFFFFF bytes

-- The frame without the magic and with a checksum of zero.
unfoldable pub crc_material : FrameHeader → List ℕ → List ℕ
crc_material header payload =
    let frame = serialize_frame_with_crc header payload in
    drop 4 (set (set (set (set frame 28 0) 29 0) 30 0) 31 0)

-- The check value of CRC-32, of the digits 1 to 9.
check_value :
    calculate_crc32 (b'1' ∷ b'2' ∷ b'3' ∷ b'4' ∷ b'5' ∷ b'6' ∷ b'7' ∷ b'8' ∷ b'9' ∷ []) ≡ 0xCBF43926
unfolding calculate_crc32
check_value = refl

pub calculate_crc32-lt : (bytes : List ℕ) → calculate_crc32 bytes < u32_mod
unfolding calculate_crc32
calculate_crc32-lt bytes = omega arith
