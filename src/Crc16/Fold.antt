-- ===== src/Crc16/Fold.antt =====
-- The loop of `crc16_compute` as a fold over the bytes that it reads.
use mcu_co_sdk.Common.{ℕ, zero, suc, ◌+◌, ◌≤◌, ◌<◌, ◌^◌, ◌≡◌, refl, ap, ◌∙◌, arith}
use mcu_co_sdk.Common.{List, [], ◌∷◌, ◌++◌, some, length, take, drop, get_or}
use mcu_co_sdk.Common.Bits.{bit_xor-lt}
use mcu_co_sdk.Crc16.{shift_bit, shift_bits, add_byte, crc_loop, crc16_compute, crc16_seed}

unfoldable pub crc_fold : ℕ → List ℕ → ℕ
crc_fold crc [] = crc
crc_fold crc (b ∷ bs) = crc_fold (add_byte crc b) bs

-- The checksum of a whole message.
unfoldable pub crc16 : List ℕ → ℕ
unfolding crc_fold
crc16 bytes = crc_fold crc16_seed bytes

pub crc_fold-append :
    (crc : ℕ) (xs bs : List ℕ) → crc_fold crc (xs ++ bs) ≡ crc_fold (crc_fold crc xs) bs
unfolding crc_fold
crc_fold-append crc [] bs = refl
crc_fold-append crc (a ∷ xs) bs = crc_fold-append (add_byte crc a) xs bs

drop-get_or : (xs : List ℕ) (i : ℕ) → i < length xs → drop i xs ≡ get_or xs i 0 ∷ drop (suc i) xs
drop-get_or [] i h = absurd (omega arith)
drop-get_or (x ∷ xs) zero h = refl
drop-get_or (x ∷ xs) (suc i) h = drop-get_or xs i (omega arith)

crc_loop-crc_fold :
    (xs : List ℕ) (n i crc : ℕ)
    → i + n ≤ length xs
    → crc_loop xs n i crc ≡ crc_fold crc (take n (drop i xs))
unfolding crc_loop crc_fold
crc_loop-crc_fold xs zero i crc h = refl
crc_loop-crc_fold xs (suc n) i crc h = rw (drop-get_or xs i (omega arith)) (
    crc_loop-crc_fold xs n (i + 1) (add_byte crc (get_or xs i 0)) (omega arith)
    ∙ ap (λ (k : ℕ). crc_fold (add_byte crc (get_or xs i 0)) (take n (drop k xs))) {y = suc i}
        (omega arith))

-- The checksum over the first `n` bytes of an array.
pub crc16_compute-crc16 :
    (xs : List ℕ) (n : ℕ) → n ≤ length xs → crc16_compute (some xs) n ≡ crc16 (take n xs)
unfolding crc16_compute crc16
crc16_compute-crc16 xs n h = crc_loop-crc_fold xs n 0 crc16_seed (omega arith)

pub shift_bit-lt : (crc : ℕ) → shift_bit crc < 2 ^ 16
unfolding shift_bit
shift_bit-lt crc = ground arith

shift_bits-lt : (n crc : ℕ) → crc < 2 ^ 16 → shift_bits n crc < 2 ^ 16
unfolding shift_bits
shift_bits-lt zero crc h = h
shift_bits-lt (suc n) crc h = shift_bits-lt n (shift_bit crc) (shift_bit-lt crc)

pub add_byte-lt : (crc byte : ℕ) → crc < 2 ^ 16 → add_byte crc byte < 2 ^ 16
unfolding add_byte
add_byte-lt crc byte h = shift_bits-lt 8 _ (bit_xor-lt 16 crc _ h (omega arith))

pub crc_fold-lt : (crc : ℕ) (bs : List ℕ) → crc < 2 ^ 16 → crc_fold crc bs < 2 ^ 16
unfolding crc_fold
crc_fold-lt crc [] h = h
crc_fold-lt crc (b ∷ bs) h = crc_fold-lt (add_byte crc b) bs (add_byte-lt crc b h)

pub crc16-lt : (bs : List ℕ) → crc16 bs < 2 ^ 16
unfolding crc16
crc16-lt bs = crc_fold-lt crc16_seed bs (omega arith)
