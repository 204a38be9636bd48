-- ===== src/Common/Bits.antt =====
-- The bit operations at variables: exclusive or, masks, single bits and fields.
mod Digits
pub mod Masks
use Digits.{by_halves, bit_and_digit, bit_or_digit, bit_xor_digit}
use Prim.Native.Nat.{ℕ, zero, suc, ◌+◌, ◌-◌, ◌*◌, ◌/◌, ◌%◌, ◌^◌, ◌<◌, ◌≤◌}
use Prim.Native.Nat.{bit_and, bit_or, bit_xor, differ, bit_or-bitwise}
use mathlib.Core.Path.{◌≡◌, refl, sym, ap, ◌∙◌}
use native.Mathlib.Nat.{pow-suc, one-le-pow}
use native.Mathlib.Omega.{arith}
use mcu_co_sdk.Common.Words.{◌<<<◌}

pub bit_or-zero : (a : ℕ) → bit_or a 0 ≡ a
bit_or-zero a =
    by_halves (λ a b. bit_or a 0 ≡ a) refl (λ a b rest. omega (arith, bit_or_digit a 0, rest)) a 0

pub bit_and-zero : (a : ℕ) → bit_and a 0 ≡ 0
bit_and-zero a =
    by_halves (λ a b. bit_and a 0 ≡ 0) refl (λ a b rest. omega (arith, bit_and_digit a 0, rest)) a 0

differ_digits : (x y : ℕ) → x < 2 → y < 2 → differ x y ≡ (x + y) % 2
differ_digits zero zero p q = refl
differ_digits zero (suc zero) p q = refl
differ_digits (suc zero) zero p q = refl
differ_digits (suc zero) (suc zero) p q = refl
differ_digits zero (suc (suc y)) p q = absurd (omega arith)
differ_digits (suc zero) (suc (suc y)) p q = absurd (omega arith)
differ_digits (suc (suc x)) y p q = absurd (omega arith)

differ_parity : (a b : ℕ) → differ (a % 2) (b % 2) ≡ (a + b) % 2
differ_parity a b = omega (arith, differ_digits (a % 2) (b % 2) (omega arith) (omega arith))

-- The lowest digit of an exclusive or, and the rest.
pub bit_xor_parity : (a b : ℕ) → bit_xor a b % 2 ≡ (a + b) % 2
bit_xor_parity a b = omega (arith, bit_xor_digit a b, differ_parity a b)

pub bit_xor_half : (a b : ℕ) → bit_xor a b / 2 ≡ bit_xor (a / 2) (b / 2)
bit_xor_half a b = omega (arith, bit_xor_digit a b, differ_parity a b)

-- Exclusive or by the same number twice gives the number back.
pub bit_xor_cancel : (a b : ℕ) → bit_xor (bit_xor a b) b ≡ a
bit_xor_cancel a b = by_halves (λ a b. bit_xor (bit_xor a b) b ≡ a) refl cancel a b
  where
    cancel :
        (a b : ℕ) → bit_xor (bit_xor (a / 2) (b / 2)) (b / 2) ≡ a / 2 → bit_xor (bit_xor a b) b ≡ a
    cancel a b rest = omega (
      arith,
      bit_xor_parity a b,
      bit_xor_parity (bit_xor a b) b,
      bit_xor_half (bit_xor a b) b ∙ ap (λ (t : ℕ). bit_xor t (b / 2)) (bit_xor_half a b),
      rest,
    )

pub bit_xor_comm : (a b : ℕ) → bit_xor a b ≡ bit_xor b a
bit_xor_comm a b =
    by_halves (λ a b. bit_xor a b ≡ bit_xor b a) refl
      (λ a b rest.
        omega
          (arith, bit_xor_parity a b, bit_xor_parity b a, bit_xor_half a b, bit_xor_half b a, rest))
      a b

-- It stays within a width.
pub bit_xor-lt : (k a b : ℕ) → a < 2 ^ k → b < 2 ^ k → bit_xor a b < 2 ^ k
bit_xor-lt zero zero zero p q = omega arith
bit_xor-lt zero zero (suc b) p q = absurd (omega arith)
bit_xor-lt zero (suc a) b p q = absurd (omega arith)
bit_xor-lt (suc k) a b p q = omega (
  arith,
  pow-suc 2 k,
  bit_xor_half a b,
  bit_xor-lt k (a / 2) (b / 2) (omega (arith, pow-suc 2 k)) (omega (arith, pow-suc 2 k)),
)

half_pow : (k : ℕ) → 2 ^ suc k / 2 ≡ 2 ^ k
half_pow k = omega (arith, pow-suc 2 k)

-- `x & 2 ^ k` at a number of k + 1 bits tells whether the top bit is set.
pub bit_and_top_clear : (k x : ℕ) → x < 2 ^ k → bit_and x (2 ^ k) ≡ 0
bit_and_top_clear zero zero h = refl
bit_and_top_clear zero (suc x) h = absurd (omega arith)
bit_and_top_clear (suc k) x h = omega (
  arith,
  pow-suc 2 k,
  bit_and_digit x (2 ^ suc k),
  ap (λ (t : ℕ). bit_and (x / 2) t) (half_pow k),
  bit_and_top_clear k (x / 2) (omega (arith, pow-suc 2 k)),
)

pub bit_and_top_set : (k x : ℕ) → 2 ^ k ≤ x → x < 2 * 2 ^ k → bit_and x (2 ^ k) ≡ 2 ^ k
bit_and_top_set zero zero p q = absurd (omega arith)
bit_and_top_set zero (suc zero) p q = refl
bit_and_top_set zero (suc (suc x)) p q = absurd (omega arith)
bit_and_top_set (suc k) x p q = omega (
  arith,
  pow-suc 2 k,
  bit_and_digit x (2 ^ suc k),
  ap (λ (t : ℕ). bit_and (x / 2) t) (half_pow k),
  bit_and_top_set k (x / 2) (omega (arith, pow-suc 2 k)) (omega (arith, pow-suc 2 k)),
)

mask_digit : (x m : ℕ) → bit_and x (2 * m + 1) ≡ bit_and (x / 2) m * 2 + x % 2
mask_digit x m =
    omega (arith, bit_and_digit x (2 * m + 1), ap (λ (t : ℕ). bit_and (x / 2) t) (half_odd m))
  where
    half_odd : (m : ℕ) → (2 * m + 1) / 2 ≡ m
    half_odd m = omega arith

mask_nibble : (x : ℕ) → bit_and x 0x0f ≡ x % 16
mask_nibble x = omega (
  arith,
  mask_digit x 7,
  mask_digit (x / 2) 3,
  mask_digit (x / 2 / 2) 1,
  mask_digit (x / 2 / 2 / 2) 0,
  bit_and-zero (x / 2 / 2 / 2 / 2),
)

-- `x & 0xFF` is the low byte.
pub bit_and_byte : (x : ℕ) → bit_and x 0xff ≡ x % 256
bit_and_byte x = omega (
  arith,
  mask_digit x 127,
  mask_digit (x / 2) 63,
  mask_digit (x / 2 / 2) 31,
  mask_digit (x / 2 / 2 / 2) 15,
  mask_nibble (x / 2 / 2 / 2 / 2),
)

shifted_half : (q k : ℕ) → q * 2 ^ suc k ≡ 2 * (q * 2 ^ k)
shifted_half q k = omega (arith, ap (λ (t : ℕ). q * t) (pow-suc 2 k))

pub zero-bit_or : (q : ℕ) → bit_or 0 q ≡ q
zero-bit_or q = bit_or-bitwise 0 q

-- `r | (q << k)` is a sum when `r` fits in `k` bits.
pub bit_or_fields : (k r q : ℕ) → r < 2 ^ k → bit_or r (q <<< k) ≡ r + q * 2 ^ k
bit_or_fields zero zero q h = omega (arith, zero-bit_or (q * 1))
bit_or_fields zero (suc r) q h = absurd (omega arith)
bit_or_fields (suc k) r q h = omega (
  arith,
  shifted_half q k,
  bit_or_digit r (q * 2 ^ suc k),
  ap (λ (t : ℕ). bit_or (r / 2) t) (halved q k),
  bit_or_fields k (r / 2) q (omega (arith, pow-suc 2 k)),
)
  where
    halved : (q k : ℕ) → q * 2 ^ suc k / 2 ≡ q * 2 ^ k
    halved q k = omega (arith, shifted_half q k)
