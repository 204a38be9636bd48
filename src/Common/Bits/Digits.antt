-- ===== src/Common/Bits/Digits.antt =====
-- `bit_and`, `bit_or` and `bit_xor` by their lowest digit and the rest, and the induction that
-- goes with it.
use Prim.Native.Nat.{
  ℕ, zero, suc, ◌+◌, ◌-◌, ◌*◌, ◌/◌, ◌%◌, ◌≤◌, min, max, differ, digits, bitwise, bit_and, bit_or,
  bit_xor, bit_and-bitwise, bit_or-bitwise, bit_xor-bitwise,
}
use mathlib.Core.Path.{◌≡◌, refl, ap, ◌∙◌}
use native.Mathlib.Omega.{arith}

-- Induction on the binary digits of two numbers.
module _ (P : ℕ → ℕ → Type 0) (base : P 0 0) (step : (a b : ℕ) → P (a / 2) (b / 2) → P a b) where
  halving : (bound a b : ℕ) → a + b ≤ bound → P a b
  halving bound zero zero small = base
  halving zero zero (suc b) small = absurd (omega arith)
  halving zero (suc a) b small = absurd (omega arith)
  halving (suc bound) zero (suc b) small =
      step zero (suc b) (halving bound 0 (suc b / 2) (omega arith))
  halving (suc bound) (suc a) b small =
      step (suc a) b (halving bound (suc a / 2) (b / 2) (omega arith))

  pub by_halves : (a b : ℕ) → P a b
  by_halves a b = halving (a + b) a b (omega arith)

-- The count of digits that `bitwise` starts from is large enough: a larger one changes nothing.
module _ (tail : ℕ → ℕ) (digit : ℕ → ℕ → ℕ) where
  one_more :
      (count a b : ℕ) → a ≤ count → digits tail digit (suc count) a b ≡ digits tail digit count a b
  one_more zero zero b enough = refl
  one_more (suc count) zero b enough = refl
  one_more zero (suc a) b enough = absurd (omega arith)
  one_more (suc count) (suc a) b enough = rw (one_more count (suc a / 2) (b / 2) (omega arith)) refl

  more :
      (extra count big a b : ℕ)
      → big ≡ extra + count
      → a ≤ count
      → digits tail digit big a b ≡ digits tail digit count a b
  more zero count big a b sum enough = ap (λ (n : ℕ). digits tail digit n a b) (omega arith)
  more (suc extra) count big a b sum enough =
      ap (λ (n : ℕ). digits tail digit n a b) {y = suc (extra + count)} (omega arith)
      ∙ one_more (extra + count) a b (omega arith)
      ∙ more extra count (extra + count) a b refl enough

  bitwise_digit :
      (a b : ℕ)
      → bitwise tail digit (suc a) b
        ≡ bitwise tail digit (suc a / 2) (b / 2) * 2 + digit (suc a % 2) (b % 2)
  bitwise_digit a b =
      omega
        (arith, more (a - suc a / 2) (suc a / 2) a (suc a / 2) (b / 2) (omega arith) (omega arith))

-- An operation by the lowest digits of its arguments and the halves.
abbrev DigitOf : (ℕ → ℕ → ℕ) → (ℕ → ℕ → ℕ) → Type 0
DigitOf op digit = (a b : ℕ) → op a b ≡ op (a / 2) (b / 2) * 2 + digit (a % 2) (b % 2)

pub bit_and_digit : DigitOf bit_and min
bit_and_digit zero b = simp bit_and-bitwise (omega arith)
bit_and_digit (suc a) b = simp bit_and-bitwise (bitwise_digit (λ y. 0) min a b)

pub bit_or_digit : DigitOf bit_or max
bit_or_digit zero b = simp bit_or-bitwise (omega arith)
bit_or_digit (suc a) b = simp bit_or-bitwise (bitwise_digit (λ y. y) max a b)

pub bit_xor_digit : DigitOf bit_xor differ
bit_xor_digit zero b = simp bit_xor-bitwise (omega arith)
bit_xor_digit (suc a) b = simp bit_xor-bitwise (bitwise_digit (λ y. y) differ a b)
