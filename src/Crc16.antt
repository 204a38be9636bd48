-- ===== src/Crc16.antt =====
-- library/src/crc16.c and library/include/crc16.h: the checksum of both kinds of frame.
pub mod Fold
pub mod Detection
use mcu_co_sdk.Common.{ℕ, zero, suc, ◌+◌, ◌*◌, ◌%◌, ◌^◌, bit_and, bit_xor, u16, ◌<<<◌}
use mcu_co_sdk.Common.{List, Option, none, some, get_or, ◌!=◌, ◌==◌, not, if◌then◌else◌}

abbrev pub crc16_polynomial : ℕ
crc16_polynomial = 0x1021

abbrev pub crc16_seed : ℕ
crc16_seed = 0xffff

-- The body of the loop over `bit`.
pub shift_bit : ℕ → ℕ
shift_bit crc =
    if bit_and crc 0x8000 != 0
    then u16 (bit_xor (u16 (crc <<< 1)) crc16_polynomial)
    else u16 (crc <<< 1)

-- The loop over `bit`, with the rounds that are left.
pub shift_bits : ℕ → ℕ → ℕ
shift_bits zero crc = crc
shift_bits (suc left) crc = shift_bits left (shift_bit crc)

-- The body of the loop over `i`, for the byte `data[i]`.
pub add_byte : ℕ → ℕ → ℕ
add_byte crc byte = shift_bits 8 (bit_xor crc (u16 (byte <<< 8)))

-- The loop over `i`, with the rounds that are left.
pub crc_loop : List ℕ → ℕ → ℕ → ℕ → ℕ
crc_loop bytes zero i crc = crc
crc_loop bytes (suc left) i crc = crc_loop bytes left (i + 1) (add_byte crc (get_or bytes i 0))

-- `none` is a NULL `data`.
unfoldable pub crc16_compute : Option (List ℕ) → ℕ → ℕ
unfolding crc_loop add_byte shift_bits shift_bit
crc16_compute none len = crc16_seed
crc16_compute (some bytes) len = crc_loop bytes len 0 crc16_seed
