-- ===== src/Cli/Options/Timeout.antt =====
-- The bounds of a timeout, and the words that are read as one.
use mcu_co_sdk.Common.{ℕ, ◌^◌, ◌≤◌, ◌<◌, ◌≡◌, none, some, Option, arith}
use mcu_co_sdk.Cli.Text.{strtoul, decimal}
use mcu_co_sdk.Cli.Words.{Word}
use mcu_co_sdk.Cli.Help.{timeout_min_ms, timeout_max_ms}
use mcu_co_sdk.Cli.Options.{parse_timeout}
use mcu_co_sdk.Cli.Numbers.{strtoul-decimal, digits-decimal, length-decimal}

-- What is known of an accepted timeout.
abbrev pub IsTimeout : Option ℕ → ℕ → Type 0
IsTimeout none value = Unit
IsTimeout (some timeout_ms) value =
    (timeout_ms ≡ value) × (timeout_min_ms ≤ timeout_ms) × (timeout_ms ≤ timeout_max_ms)

-- An accepted timeout is the number that `strtoul` reads in the word, not truncated, and it is from
-- 20 to 10000 milliseconds.
pub parse_timeout-IsTimeout : (word : Word) → IsTimeout (parse_timeout word) (strtoul word).0
unfolding parse_timeout
parse_timeout-IsTimeout word = ground arith

-- Every number from 20 to 10000 is accepted as it is printed in decimal, and read as itself.
pub parse_timeout-decimal :
    (n : ℕ) → timeout_min_ms ≤ n → n ≤ timeout_max_ms → parse_timeout (decimal n) ≡ some n
unfolding parse_timeout
parse_timeout-decimal n low high =
    let small : n < 10 ^ 10 = omega arith in
    rw (digits-decimal n small, strtoul-decimal n small) (ground (arith, length-decimal n))
