-- ===== src/Cli/Text.antt =====
-- What cli/commands.c uses of the C library on a word: `strcmp` with a text, `strtoul` in base ten
-- and `printf` of `%u`. A word is the list of its characters, without the final NUL; `unsigned long`
-- has 64 bits.
use Prim.Native.Char.{code}
use Prim.Native.String.{String}
use mcu_co_sdk.Common.{
  ℕ, zero, suc, ◌+◌, ◌-◌, ◌*◌, ◌/◌, ◌%◌, ◌^◌, List, [], ◌∷◌, Bool, true, false, ◌&&◌, ◌||◌,
}
use mcu_co_sdk.Common.{ltb, leb, ◌==◌, if◌then◌else◌}

abbrev pub codes : String → List ℕ
codes String.[] = []
codes (String.◌∷◌ c s) = code c ∷ codes s

-- `strcmp(word, text) == 0`
abbrev pub same_word : List ℕ → List ℕ → Bool
same_word [] [] = true
same_word [] (t ∷ ts) = false
same_word (c ∷ cs) [] = false
same_word (c ∷ cs) (t ∷ ts) = c == t && same_word cs ts

-- `*end == '\0'`
abbrev pub is_end : List ℕ → Bool
is_end [] = true
is_end (c ∷ cs) = false

abbrev pub is_digit : ℕ → Bool
is_digit c = leb b'0' c && leb c b'9'

is_space : ℕ → Bool
is_space c = c == 32 || leb 9 c && leb c 13

unfoldable pub skip_spaces : List ℕ → List ℕ
unfolding is_space
skip_spaces [] = []
skip_spaces (c ∷ cs) = let rest = skip_spaces cs in if is_space c then rest else c ∷ cs

-- Whether there is a minus sign, and what comes after the sign.
abbrev pub take_sign : List ℕ → Bool × List ℕ
take_sign [] = (false, [])
take_sign (c ∷ cs) =
    if c == b'-' then (true, cs) else if c == b'+' then (false, cs) else (false, c ∷ cs)

-- The value of the digits at the front, and what comes after them.
unfoldable pub take_digits : ℕ → List ℕ → ℕ × List ℕ
take_digits value [] = (value, [])
take_digits value (c ∷ cs) =
    let rest = take_digits (value * 10 + (c - b'0')) cs in
    if is_digit c then rest else (value, c ∷ cs)

abbrev pub ulong_max : ℕ
ulong_max = 0xffffffffffffffff

-- A value out of range becomes the largest one; a minus sign negates within 64 bits.
abbrev pub to_ulong : Bool → ℕ → ℕ
to_ulong negative value =
    if ltb ulong_max value then ulong_max else if negative then (2 ^ 64 - value) % 2 ^ 64 else value

abbrev starts_digit : List ℕ → Bool
starts_digit [] = false
starts_digit (c ∷ cs) = is_digit c

-- The value, and where `end` points; without a digit that is the word itself.
unfoldable pub strtoul : List ℕ → ℕ × List ℕ
strtoul word =
    let (negative, body) = take_sign (skip_spaces word) in
    let (value, rest) = take_digits 0 body in
    if starts_digit body then (to_ulong negative value, rest) else (0, word)

-- The digits of a number in front of a text; the fuel bounds their count.
unfoldable pub put_digits : ℕ → ℕ → List ℕ → List ℕ
put_digits zero n text = text
put_digits (suc fuel) n text =
    let more = put_digits fuel (n / 10) ((b'0' + n % 10) ∷ text) in
    if ltb n 10 then (b'0' + n) ∷ text else more

-- `%u`; a 32-bit number has at most ten digits.
unfoldable pub decimal : ℕ → List ℕ
unfolding put_digits
decimal n = put_digits 10 n []
