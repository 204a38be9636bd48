-- ===== src/Crc16/Detection.antt =====
-- What the checksum detects. Each step of the register can be undone, so that two registers
-- that differ once stay different.
use mcu_co_sdk.Common.{
  ℕ, zero, suc, ◌+◌, ◌/◌, ◌%◌, ◌≤◌, ◌<◌, ◌^◌, ◌≡◌, ◌≢◌, refl, sym, ap, ◌∙◌, arith,
}
use mcu_co_sdk.Common.{
  List, [], ◌∷◌, ◌++◌, bit_xor, u16, ◌<<<◌, ◌==◌, if◌then◌else◌, Bool-cases, ltb, inl, inr, some,
  length, take_all,
}
use mcu_co_sdk.Common.Bits.{
  bit_xor-lt, bit_xor_cancel, bit_xor_comm, bit_xor_parity, bit_and_top_clear, bit_and_top_set,
}
use mcu_co_sdk.Crc16.{shift_bit, shift_bits, add_byte, crc16_polynomial, crc16_seed, crc16_compute}
use mcu_co_sdk.Crc16.Fold.{
  crc_fold, crc16, crc16_compute-crc16, crc_fold-append, crc_fold-lt, shift_bit-lt, add_byte-lt,
}

-- The register before a step, from the register after it: the polynomial is odd, so the lowest bit
-- tells whether it was added.
unshift_bit : ℕ → ℕ
unshift_bit crc = if crc % 2 == 1 then bit_xor crc crc16_polynomial / 2 + 0x8000 else crc / 2

unshift_bit-shift_bit_low : (x : ℕ) → x < 2 ^ 15 → unshift_bit (shift_bit x) ≡ x
unfolding unshift_bit shift_bit
unshift_bit-shift_bit_low x h = rw (bit_and_top_clear 15 x h) (ground arith)

unshift_bit-shift_bit_high : (x : ℕ) → 2 ^ 15 ≤ x → x < 2 ^ 16 → unshift_bit (shift_bit x) ≡ x
unfolding unshift_bit shift_bit
unshift_bit-shift_bit_high x p q =
    let low : ℕ = u16 (x <<< 1) in
    let small : bit_xor low 0x1021 < 2 ^ 16 =
      bit_xor-lt 16 low 0x1021 (omega arith) (omega arith) in
    let fits : u16 (bit_xor low 0x1021) ≡ bit_xor low 0x1021 = omega arith in
    rw (bit_and_top_set 15 x p q)
      (rw fits (ground (arith, bit_xor_parity low 0x1021, bit_xor_cancel low 0x1021)))

-- A shift loses nothing.
unshift_bit-shift_bit : (x : ℕ) → x < 2 ^ 16 → unshift_bit (shift_bit x) ≡ x
unshift_bit-shift_bit x h = elim (Bool-cases (ltb x 0x8000)) [
  | inl low ↦ unshift_bit-shift_bit_low x (ground arith)
  | inr high ↦ unshift_bit-shift_bit_high x (ground arith) h
]

shift_bits_injective :
    (n x y : ℕ) → x < 2 ^ 16 → y < 2 ^ 16 → shift_bits n x ≡ shift_bits n y → x ≡ y
unfolding shift_bits
shift_bits_injective zero x y p q e = e
shift_bits_injective (suc n) x y p q e =
    let same : shift_bit x ≡ shift_bit y =
      shift_bits_injective n (shift_bit x) (shift_bit y) (shift_bit-lt x) (shift_bit-lt y) e in
    sym (unshift_bit-shift_bit x p) ∙ ap unshift_bit same ∙ unshift_bit-shift_bit y q

bit_xor_injective : (a b c : ℕ) → bit_xor a c ≡ bit_xor b c → a ≡ b
bit_xor_injective a b c e =
    sym (bit_xor_cancel a c) ∙ ap (λ (t : ℕ). bit_xor t c) e ∙ bit_xor_cancel b c

-- Equal registers after a byte come from equal registers before it.
add_byte_injective : (c d b : ℕ) → c < 2 ^ 16 → d < 2 ^ 16 → add_byte c b ≡ add_byte d b → c ≡ d
unfolding add_byte
add_byte_injective c d b p q e = bit_xor_injective c d (u16 (b <<< 8)) (
    shift_bits_injective 8 _ _ (bit_xor-lt 16 c _ p (omega arith))
      (bit_xor-lt 16 d _ q (omega arith)) e)

crc_fold_injective :
    (bs : List ℕ) (c d : ℕ) → c < 2 ^ 16 → d < 2 ^ 16 → crc_fold c bs ≡ crc_fold d bs → c ≡ d
unfolding crc_fold
crc_fold_injective [] c d p q e = e
crc_fold_injective (b ∷ bs) c d p q e =
    add_byte_injective c d b p q (
      crc_fold_injective bs (add_byte c b) (add_byte d b) (add_byte-lt c b p) (add_byte-lt d b q) e)

add_byte_distinguishes :
    (c x y : ℕ) → c < 2 ^ 16 → x < 2 ^ 8 → y < 2 ^ 8 → add_byte c x ≡ add_byte c y → x ≡ y
unfolding add_byte
add_byte_distinguishes c x y h p q e =
    let mixed : bit_xor c (u16 (x <<< 8)) ≡ bit_xor c (u16 (y <<< 8)) =
      shift_bits_injective 8 _ _ (bit_xor-lt 16 c _ h (omega arith))
        (bit_xor-lt 16 c _ h (omega arith)) e in
    let shifted : u16 (x <<< 8) ≡ u16 (y <<< 8) =
      bit_xor_injective _ _ c (bit_xor_comm _ c ∙ mixed ∙ bit_xor_comm c _) in
    omega arith

pub crc16-byte_injective :
    (before after : List ℕ) (x y : ℕ)
    → x < 2 ^ 8
    → y < 2 ^ 8
    → crc16 (before ++ (x ∷ after)) ≡ crc16 (before ++ (y ∷ after))
    → x ≡ y
unfolding crc16 crc_fold
crc16-byte_injective before after x y p q e =
    let c : ℕ = crc_fold crc16_seed before in
    let small : c < 2 ^ 16 = crc_fold-lt crc16_seed before (omega arith) in
    add_byte_distinguishes c x y small p q (
      crc_fold_injective after _ _ (add_byte-lt c x small) (add_byte-lt c y small) (
        sym (crc_fold-append crc16_seed before (x ∷ after))
        ∙ e
        ∙ crc_fold-append crc16_seed before (y ∷ after)))

-- Two messages that differ in one byte have different checksums, as `crc16_compute` finds them.
pub crc16_compute-single_byte :
    (before after : List ℕ) (x y : ℕ)
    → x < 2 ^ 8
    → y < 2 ^ 8
    → x ≢ y
    → crc16_compute (some (before ++ (x ∷ after))) (length (before ++ (x ∷ after)))
      ≢ crc16_compute (some (before ++ (y ∷ after))) (length (before ++ (y ∷ after)))
crc16_compute-single_byte before after x y p q differ same = differ (
    crc16-byte_injective before after x y p q (
      sym (crc16_compute-whole (before ++ (x ∷ after)))
      ∙ same
      ∙ crc16_compute-whole (before ++ (y ∷ after))))
  where
    crc16_compute-whole : (xs : List ℕ) → crc16_compute (some xs) (length xs) ≡ crc16 xs
    crc16_compute-whole xs =
        crc16_compute-crc16 xs (length xs) (omega arith) ∙ ap crc16 (take_all (length xs) xs refl)
