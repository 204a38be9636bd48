-- ===== src/Common/Bits/Masks.antt =====
-- Fields of bits: what `&`, `|` and the complement of a mask do to one another.
use Prim.Native.Nat.{ℕ, zero, suc, ◌-◌, ◌/◌, ◌%◌, ◌^◌, ◌<◌, min, max, bit_and, bit_or}
use mathlib.Core.Path.{◌≡◌, refl, sym, ap, ◌∙◌}
use native.Mathlib.Omega.{arith}
use native.Mathlib.Nat.{pow-suc}
use mcu_co_sdk.Common.Bits.Digits.{by_halves, bit_and_digit, bit_or_digit}

-- The lowest digit and the rest.
bit_and_parity : (a b : ℕ) → bit_and a b % 2 ≡ min (a % 2) (b % 2)
bit_and_parity a b = omega (arith, bit_and_digit a b)

bit_and_half : (a b : ℕ) → bit_and a b / 2 ≡ bit_and (a / 2) (b / 2)
bit_and_half a b = omega (arith, bit_and_digit a b)

bit_or_parity : (a b : ℕ) → bit_or a b % 2 ≡ max (a % 2) (b % 2)
bit_or_parity a b = omega (arith, bit_or_digit a b)

bit_or_half : (a b : ℕ) → bit_or a b / 2 ≡ bit_or (a / 2) (b / 2)
bit_or_half a b = omega (arith, bit_or_digit a b)

pub zero-bit_and : (a : ℕ) → bit_and 0 a ≡ 0
zero-bit_and a =
    by_halves (λ a b. bit_and 0 a ≡ 0) refl (λ a b rest. omega (arith, bit_and_digit 0 a, rest)) a 0

pub bit_and_comm : (a b : ℕ) → bit_and a b ≡ bit_and b a
bit_and_comm a b =
    by_halves (λ a b. bit_and a b ≡ bit_and b a) refl
      (λ a b rest.
        omega
          (arith, bit_and_parity a b, bit_and_parity b a, bit_and_half a b, bit_and_half b a, rest))
      a b

pub bit_and_assoc : (a b c : ℕ) → bit_and (bit_and a b) c ≡ bit_and a (bit_and b c)
bit_and_assoc a b =
    by_halves (λ a b. (c : ℕ) → bit_and (bit_and a b) c ≡ bit_and a (bit_and b c))
      (λ c. zero-bit_and c ∙ sym (zero-bit_and (bit_and 0 c)))
      (λ a b rest c. omega (
        arith,
        bit_and_parity (bit_and a b) c,
        bit_and_parity a b,
        bit_and_parity b c,
        bit_and_parity a (bit_and b c),
        bit_and_half (bit_and a b) c ∙ ap (λ (t : ℕ). bit_and t (c / 2)) (bit_and_half a b),
        bit_and_half a (bit_and b c) ∙ ap (λ (t : ℕ). bit_and (a / 2) t) (bit_and_half b c),
        rest (c / 2),
      ))
      a b

pub bit_and_or : (a b c : ℕ) → bit_and (bit_or a b) c ≡ bit_or (bit_and a c) (bit_and b c)
bit_and_or a b =
    by_halves (λ a b. (c : ℕ) → bit_and (bit_or a b) c ≡ bit_or (bit_and a c) (bit_and b c))
      (λ c. zero-bit_and c ∙ sym (ap (λ (t : ℕ). bit_or t t) (zero-bit_and c)))
      (λ a b rest c. omega (
        arith,
        bit_and_parity (bit_or a b) c,
        bit_or_parity a b,
        bit_and_parity a c,
        bit_and_parity b c,
        bit_or_parity (bit_and a c) (bit_and b c),
        bit_and_half (bit_or a b) c ∙ ap (λ (t : ℕ). bit_and t (c / 2)) (bit_or_half a b),
        bit_or_half (bit_and a c) (bit_and b c)
            ∙ ap (λ (t : ℕ). bit_or t (bit_and b c / 2)) (bit_and_half a c)
            ∙ ap (λ (t : ℕ). bit_or (bit_and (a / 2) (c / 2)) t) (bit_and_half b c),
        rest (c / 2),
      ))
      a b

pub bit_and-bit_or : (a b : ℕ) → bit_and a (bit_or a b) ≡ a
bit_and-bit_or a b =
    by_halves (λ a b. bit_and a (bit_or a b) ≡ a) refl
      (λ a b rest. omega (
        arith,
        bit_and_parity a (bit_or a b),
        bit_or_parity a b,
        bit_and_half a (bit_or a b) ∙ ap (λ (t : ℕ). bit_and (a / 2) t) (bit_or_half a b),
        rest,
      ))
      a b

-- Bits that a mask has are not in its complement.
pub complement-bit_and :
    (k m sub : ℕ) → m < 2 ^ k → bit_and sub m ≡ sub → bit_and (2 ^ k - 1 - m) sub ≡ 0
complement-bit_and zero m sub h inside =
    ap (λ (t : ℕ). bit_and t sub) {y = 0} (omega arith) ∙ zero-bit_and sub
complement-bit_and (suc k) m sub h inside = omega (
  arith,
  pow-suc 2 k,
  bit_and_parity (2 ^ suc k - 1 - m) sub,
  bit_and_half (2 ^ suc k - 1 - m) sub
      ∙ ap (λ (t : ℕ). bit_and t (sub / 2)) {y = 2 ^ k - 1 - m / 2} (omega (arith, pow-suc 2 k)),
  bit_and_parity sub m,
  complement-bit_and k (m / 2) (sub / 2) (omega (arith, pow-suc 2 k))
      (omega (arith, inside, bit_and_half sub m)),
)
