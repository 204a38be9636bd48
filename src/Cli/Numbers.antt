-- ===== src/Cli/Numbers.antt =====
-- The digits that `%u` prints are read back by `strtoul`.
use mcu_co_sdk.Common.{
  ℕ, zero, suc, ◌+◌, ◌*◌, ◌/◌, ◌%◌, ◌^◌, ◌≤◌, ◌<◌, ◌≡◌, ap, ◌∙◌, arith, [], ◌∷◌, true, false, ltb,
  Bool-cases, inl, inr, ◌==◌, length,
}
use native.Mathlib.Nat.{pow-suc}
use mcu_co_sdk.Cli.Text.{
  is_digit, take_sign, take_digits, put_digits, decimal, strtoul, skip_spaces,
}
use mcu_co_sdk.Cli.Words.{Word, no_digit_first}

abbrev IsDigit : ℕ → Type 0
IsDigit c = (b'0' ≤ c) × (c ≤ b'9')

-- A word that starts with a digit.
abbrev StartsDigit : Word → Type 0
StartsDigit [] = ⊥
StartsDigit (c ∷ cs) = IsDigit c

put_digits-StartsDigit :
    (fuel n : ℕ) (text : Word) → StartsDigit text → StartsDigit (put_digits fuel n text)
unfolding put_digits
put_digits-StartsDigit zero n text h = h
put_digits-StartsDigit (suc fuel) n text h = elim (Bool-cases (ltb n 10)) [
  | inl t ↦ rw t (ground arith)
  | inr t ↦ rw t (put_digits-StartsDigit fuel (n / 10) ((b'0' + n % 10) ∷ text) (ground arith))
]

take_digits-digit :
    (v d n : ℕ) (text : Word)
    → d < 10
    → v * 10 + d ≡ n
    → take_digits v ((b'0' + d) ∷ text) ≡ take_digits n text
unfolding take_digits
take_digits-digit v d n text h e =
    let digit : is_digit (b'0' + d) ≡ true = ground arith in
    rw digit (ap (λ (m : ℕ). take_digits m text) (omega arith))

take_digits-put_digits :
    (fuel n : ℕ) (text : Word)
    → n < 10 ^ fuel
    → take_digits 0 (put_digits fuel n text) ≡ take_digits n text
unfolding put_digits
take_digits-put_digits zero n text h = ap (λ (v : ℕ). take_digits v text) {x = 0} (omega arith)
take_digits-put_digits (suc fuel) n text h = elim (Bool-cases (ltb n 10)) [
  | inl t ↦ rw t (take_digits-digit 0 n n text (ground arith) (omega arith))
  | inr t ↦ rw t (
      take_digits-put_digits fuel (n / 10) ((b'0' + n % 10) ∷ text)
        (ground (arith, pow-suc 10 fuel))
      ∙ take_digits-digit (n / 10) (n % 10) n text (omega arith) (omega arith))
]

skip_spaces-digit : (c : ℕ) (cs : Word) → IsDigit c → skip_spaces (c ∷ cs) ≡ c ∷ cs
unfolding skip_spaces
skip_spaces-digit c cs h = ground arith

take_sign-digit : (c : ℕ) (cs : Word) → IsDigit c → take_sign (c ∷ cs) ≡ (false, c ∷ cs)
take_sign-digit c cs h = ground arith

-- A word of digits has no spaces and no sign in front.
strtoul-StartsDigit :
    (word : Word) (value : ℕ)
    → StartsDigit word
    → take_digits 0 word ≡ (value, [])
    → value < 2 ^ 64
    → strtoul word ≡ (value, [])
unfolding strtoul
strtoul-StartsDigit [] value h e small = absurd h
strtoul-StartsDigit (c ∷ cs) value h e small =
    let digit : is_digit c ≡ true = ground arith in
    let skipped : skip_spaces (c ∷ cs) ≡ c ∷ cs = skip_spaces-digit c cs h in
    let unsigned : take_sign (c ∷ cs) ≡ (false, c ∷ cs) = take_sign-digit c cs h in
    rw skipped (rw unsigned (rw digit (rw e (ground arith))))

decimal-StartsDigit : (n : ℕ) → StartsDigit (decimal n)
unfolding decimal put_digits
decimal-StartsDigit n = elim (Bool-cases (ltb n 10)) [
  | inl t ↦ rw t (ground arith)
  | inr t ↦ rw t (put_digits-StartsDigit 9 (n / 10) ((b'0' + n % 10) ∷ []) (ground arith))
]

take_digits-decimal : (n : ℕ) → n < 10 ^ 10 → take_digits 0 (decimal n) ≡ (n, [])
unfolding decimal take_digits
take_digits-decimal n h = take_digits-put_digits 10 n [] h

-- A number of at most ten digits that is printed is read back, to the end of the word.
pub strtoul-decimal : (n : ℕ) → n < 10 ^ 10 → strtoul (decimal n) ≡ (n, [])
strtoul-decimal n h =
    strtoul-StartsDigit (decimal n) n (decimal-StartsDigit n) (take_digits-decimal n h)
      (omega arith)

pub no_digit_first-decimal : (n : ℕ) → no_digit_first (decimal n) ≡ false
no_digit_first-decimal n = first (decimal n) (decimal-StartsDigit n)
  where
    first : (word : Word) → StartsDigit word → no_digit_first word ≡ false
    first [] h = absurd h
    first (c ∷ cs) h = ground arith

-- There are no spaces and no sign in front of the digits.
pub digits-decimal :
    (n : ℕ) → n < 10 ^ 10 → take_digits 0 (take_sign (skip_spaces (decimal n))).1 ≡ (n, [])
digits-decimal n h = first (decimal n) (decimal-StartsDigit n) (take_digits-decimal n h)
  where
    first :
        (word : Word)
        → StartsDigit word
        → take_digits 0 word ≡ (n, [])
        → take_digits 0 (take_sign (skip_spaces word)).1 ≡ (n, [])
    first [] h e = absurd h
    first (c ∷ cs) h e =
        let skipped : skip_spaces (c ∷ cs) ≡ c ∷ cs = skip_spaces-digit c cs h in
        let unsigned : take_sign (c ∷ cs) ≡ (false, c ∷ cs) = take_sign-digit c cs h in
        rw skipped (rw unsigned e)

-- A printed number has at least one digit.
pub length-decimal : (n : ℕ) → (length (decimal n) == 0) ≡ false
length-decimal n = first (decimal n) (decimal-StartsDigit n)
  where
    first : (word : Word) → StartsDigit word → (length word == 0) ≡ false
    first [] h = absurd h
    first (c ∷ cs) h = ground arith
