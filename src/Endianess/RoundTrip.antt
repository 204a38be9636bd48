-- ===== src/Endianess/RoundTrip.antt =====
-- What is written is read back, and what is read is written back.
use mcu_co_sdk.Common.{ℕ, ◌+◌, ◌*◌, ◌/◌, ◌%◌, ◌^◌, ◌≤◌, ◌<◌, ◌≡◌, ap, ◌∙◌, arith}
use mcu_co_sdk.Common.{List, [], ◌∷◌, some, length, bit_and, bit_or, u16, u32, ◌<<<◌}
use mcu_co_sdk.Common.Int.{pos}
use mcu_co_sdk.Common.Bits.{bit_and_byte, bit_or_fields}
use mcu_co_sdk.Endianess.{put_u16_le, put_u32_le, get_u16_le, get_u32_le}

-- The bytes of a number, lowest first.
abbrev pub bytes_u16 : ℕ → List ℕ
bytes_u16 v = v % 256 ∷ v / 256 % 256 ∷ []

abbrev pub bytes_u32 : ℕ → List ℕ
bytes_u32 v = v % 256 ∷ v / 2 ^ 8 % 256 ∷ v / 2 ^ 16 % 256 ∷ v / 2 ^ 24 % 256 ∷ []

low_byte : (v : ℕ) → bit_and v 0xff % 2 ^ 8 ≡ v % 256
low_byte v = omega (arith, bit_and_byte v)

pub put_u16_le_lem :
    (a b v : ℕ) (rest : List ℕ)
    → put_u16_le (some (a ∷ b ∷ rest)) v ≡ (pos 2, some (v % 256 ∷ v / 256 % 256 ∷ rest))
unfolding put_u16_le
put_u16_le_lem a b v rest = rw (low_byte v, low_byte (v / 2 ^ 8))

pub put_u32_le_lem :
    (a b c d v : ℕ) (rest : List ℕ)
    → put_u32_le (some (a ∷ b ∷ c ∷ d ∷ rest)) v
      ≡ (pos 4, some (v % 256 ∷ v / 2 ^ 8 % 256 ∷ v / 2 ^ 16 % 256 ∷ v / 2 ^ 24 % 256 ∷ rest))
unfolding put_u32_le
put_u32_le_lem a b c d v rest =
    rw (low_byte v, low_byte (v / 2 ^ 8), low_byte (v / 2 ^ 16), low_byte (v / 2 ^ 24))

pub get_u16_le_lem :
    (a b old : ℕ) (rest : List ℕ)
    → a < 2 ^ 8
    → b < 2 ^ 8
    → get_u16_le (some (a ∷ b ∷ rest)) (some old) ≡ (pos 2, some (a + b * 256))
unfolding get_u16_le
get_u16_le_lem a b old rest p q =
    let value : u16 (bit_or a (b <<< 8)) ≡ a + b * 256 = omega (arith, bit_or_fields 8 a b p) in
    rw value

word_u32 :
    (a b c d : ℕ)
    → a < 2 ^ 8
    → b < 2 ^ 8
    → c < 2 ^ 8
    → d < 2 ^ 8
    → bit_or (bit_or (bit_or a (u32 (b <<< 8))) (u32 (c <<< 16))) (u32 (d <<< 24))
      ≡ a + b * 2 ^ 8 + c * 2 ^ 16 + d * 2 ^ 24
word_u32 a b c d p q r s =
    let eb : u32 (b <<< 8) ≡ b <<< 8 = omega arith in
    let ec : u32 (c <<< 16) ≡ c <<< 16 = omega arith in
    let ed : u32 (d <<< 24) ≡ d <<< 24 = omega arith in
    rw (eb, ec, ed)
      (rw (
        bit_or_fields 8 a b p,
        bit_or_fields 16 (a + b * 2 ^ 8) c (omega arith),
        bit_or_fields 24 (a + b * 2 ^ 8 + c * 2 ^ 16) d (omega arith),
      ))

pub get_u32_le_lem :
    (a b c d old : ℕ) (rest : List ℕ)
    → a < 2 ^ 8
    → b < 2 ^ 8
    → c < 2 ^ 8
    → d < 2 ^ 8
    → get_u32_le (some (a ∷ b ∷ c ∷ d ∷ rest)) (some old)
      ≡ (pos 4, some (a + b * 2 ^ 8 + c * 2 ^ 16 + d * 2 ^ 24))
unfolding get_u32_le
get_u32_le_lem a b c d old rest p q r s = rw (word_u32 a b c d p q r s)

-- A `uint16_t` put into an array of two bytes or more is got back, whatever the array held.
pub get_u16_le-put_u16_le :
    (destination : List ℕ) (v old : ℕ)
    → 2 ≤ length destination
    → v < 2 ^ 16
    → get_u16_le (put_u16_le (some destination) v).1 (some old) ≡ (pos 2, some v)
get_u16_le-put_u16_le [] v old h p = absurd (omega arith)
get_u16_le-put_u16_le (a ∷ []) v old h p = absurd (omega arith)
get_u16_le-put_u16_le (a ∷ b ∷ rest) v old h p =
    let value : v % 256 + v / 256 % 256 * 256 ≡ v = omega arith in
    rw put_u16_le_lem (
      get_u16_le_lem (v % 256) (v / 256 % 256) old rest (omega arith) (omega arith)
      ∙ ap (λ (t : ℕ). (pos 2, some t)) value)

-- A `uint32_t` put into an array of four bytes or more is got back, whatever the array held.
pub get_u32_le-put_u32_le :
    (destination : List ℕ) (v old : ℕ)
    → 4 ≤ length destination
    → v < 2 ^ 32
    → get_u32_le (put_u32_le (some destination) v).1 (some old) ≡ (pos 4, some v)
get_u32_le-put_u32_le [] v old h p = absurd (omega arith)
get_u32_le-put_u32_le (a ∷ []) v old h p = absurd (omega arith)
get_u32_le-put_u32_le (a ∷ b ∷ []) v old h p = absurd (omega arith)
get_u32_le-put_u32_le (a ∷ b ∷ c ∷ []) v old h p = absurd (omega arith)
get_u32_le-put_u32_le (a ∷ b ∷ c ∷ d ∷ rest) v old h p =
    let value : v % 256
          + v / 2 ^ 8 % 256 * 2 ^ 8
          + v / 2 ^ 16 % 256 * 2 ^ 16
          + v / 2 ^ 24 % 256 * 2 ^ 24
        ≡ v =
      omega arith in
    rw put_u32_le_lem (
      get_u32_le_lem (v % 256) (v / 2 ^ 8 % 256) (v / 2 ^ 16 % 256) (v / 2 ^ 24 % 256) old rest
        (omega arith) (omega arith) (omega arith) (omega arith)
      ∙ ap (λ (t : ℕ). (pos 4, some t)) value)
