-- ===== src/Endianess.antt =====
-- library/src/endianess.c and library/include/endianess.h: numbers as little-endian bytes.
-- `none` is a NULL pointer, and a call returns its `int` and what it leaves behind the pointer.
pub mod RoundTrip
use mcu_co_sdk.Common.{ℕ, ◌*◌, ◌/◌, ◌%◌, ◌^◌, bit_and, bit_or, u16, u32, ◌<<<◌, ◌>>>◌, u8}
use mcu_co_sdk.Common.{List, Option, none, some, get_or, set}
use mcu_co_sdk.Common.Int.{ℤ, pos, neg_ℕ}

unfoldable pub put_u16_le : Option (List ℕ) → ℕ → ℤ × Option (List ℕ)
put_u16_le none value = (neg_ℕ 1, none)
put_u16_le (some destination) value =
    let d = set destination 0 (u8 (bit_and value 0xff)) in
    let d = set d 1 (u8 (bit_and (value >>> 8) 0xff)) in (pos 2, some d)

unfoldable pub put_u32_le : Option (List ℕ) → ℕ → ℤ × Option (List ℕ)
put_u32_le none value = (neg_ℕ 1, none)
put_u32_le (some destination) value =
    let d = set destination 0 (u8 (bit_and value 0xff)) in
    let d = set d 1 (u8 (bit_and (value >>> 8) 0xff)) in
    let d = set d 2 (u8 (bit_and (value >>> 16) 0xff)) in
    let d = set d 3 (u8 (bit_and (value >>> 24) 0xff)) in (pos 4, some d)

unfoldable pub get_u16_le : Option (List ℕ) → Option ℕ → ℤ × Option ℕ
get_u16_le none value = (neg_ℕ 1, value)
get_u16_le (some source) none = (neg_ℕ 1, none)
get_u16_le (some source) (some old) =
    (pos 2, some (u16 (bit_or (get_or source 0 0) (get_or source 1 0 <<< 8))))

unfoldable pub get_u32_le : Option (List ℕ) → Option ℕ → ℤ × Option ℕ
get_u32_le none value = (neg_ℕ 1, value)
get_u32_le (some source) none = (neg_ℕ 1, none)
get_u32_le (some source) (some old) =
    let v = bit_or (get_or source 0 0) (u32 (get_or source 1 0 <<< 8)) in
    let v = bit_or v (u32 (get_or source 2 0 <<< 16)) in
    let v = bit_or v (u32 (get_or source 3 0 <<< 24)) in (pos 4, some v)
