-- ===== src/Cli/Words.antt =====
-- The parsers of cli/commands.c for one word each. Each returns the value that it stores, or `none`
-- where the source returns -1 and stores nothing.
use mcu_co_sdk.Common.{
  ℕ, ◌-◌, ◌*◌, ◌/◌, ◌%◌, ◌^◌, List, Option, none, some, Bool, ◌||◌, not, ltb, ◌!=◌, u8, u16, u32,
  get_or, if◌then◌else◌,
}
use mcu_co_sdk.Values.{
  dir_input, dir_output, level_low, level_high, pin_max, group_max, freq_min, freq_max, duty_max,
  pol_active_high, pol_active_low, edge_off, edge_rising, edge_falling, edge_both, action_low,
  action_high, action_toggle,
}
use mcu_co_sdk.Cli.Text.{codes, same_word, is_end, strtoul}

abbrev pub Word : Type 0
Word = List ℕ

-- `mcuco_args_t`
pub record McucoArgs : Type 0 where
  pub direction : ℕ
  pub level : ℕ
  pub port : ℕ
  pub pin : ℕ
  pub frequency_hz : ℕ
  pub timer : ℕ
  pub polarity : ℕ
  pub duty_tenths : ℕ
  pub edge : ℕ
  pub action : ℕ
  pub out_port : ℕ
  pub out_pin : ℕ

-- `word_kind_t`
pub data WordKind : Type 0 where
  word_none word_direction word_level word_port word_pin word_frequency : WordKind
  word_timer word_polarity word_duty word_edge word_bind_edge word_action : WordKind
  word_out_port word_out_pin : WordKind

unfoldable pub parse_direction : Word → Option ℕ
parse_direction word =
    if same_word word (codes "input")
    then some dir_input
    else if same_word word (codes "output")
    then some dir_output
    else none

unfoldable pub parse_level : Word → Option ℕ
parse_level word =
    if same_word word (codes "low")
    then some level_low
    else if same_word word (codes "high")
    then some level_high
    else none

unfoldable pub parse_port : Word → Option ℕ
parse_port word =
    if ltb (get_or word 0 0) b'A' || ltb b'G' (get_or word 0 0) || get_or word 1 0 != 0
    then none
    else some (get_or word 0 0 - b'A')

-- `word[0] < '0' || word[0] > '9'`
abbrev pub no_digit_first : Word → Bool
no_digit_first word = ltb (get_or word 0 0) b'0' || ltb b'9' (get_or word 0 0)

unfoldable pub parse_pin : Word → Option ℕ
parse_pin word =
    if no_digit_first word
    then none
    else let (value, end) = strtoul word in
      if not (is_end end) || ltb pin_max value then none else some (u8 value)

unfoldable pub parse_timer : Word → Option ℕ
parse_timer word =
    if no_digit_first word
    then none
    else let (value, end) = strtoul word in
      if not (is_end end) || ltb group_max value then none else some (u8 value)

unfoldable pub parse_frequency : Word → Option ℕ
parse_frequency word =
    let (value, end) = strtoul word in
    if not (is_end end) || ltb value freq_min || ltb freq_max value then none else some (u32 value)

unfoldable pub parse_polarity : Word → Option ℕ
parse_polarity word =
    if same_word word (codes "active-high")
    then some pol_active_high
    else if same_word word (codes "active-low")
    then some pol_active_low
    else none

unfoldable pub parse_duty : Word → Option ℕ
parse_duty word =
    if no_digit_first word
    then none
    else let (percent, end) = strtoul word in
      if not (is_end end) || ltb (duty_max / 10) percent
      then none
      else some (u16 (percent * 10 % 2 ^ 64))

unfoldable pub parse_edge : Word → Option ℕ
parse_edge word =
    if same_word word (codes "off")
    then some edge_off
    else if same_word word (codes "rising")
    then some edge_rising
    else if same_word word (codes "falling")
    then some edge_falling
    else if same_word word (codes "both")
    then some edge_both
    else none

unfoldable pub parse_bind_edge : Word → Option ℕ
unfolding parse_edge
parse_bind_edge word = if same_word word (codes "off") then none else parse_edge word

unfoldable pub parse_action : Word → Option ℕ
parse_action word =
    if same_word word (codes "low")
    then some action_low
    else if same_word word (codes "high")
    then some action_high
    else if same_word word (codes "toggle")
    then some action_toggle
    else none

-- A parser that stores its value in a field.
abbrev pub store : Option ℕ → (ℕ → McucoArgs) → Option McucoArgs
store none field = none
store (some value) field = some (field value)

-- `none` is -1, which leaves the arguments as they were.
unfoldable pub parse_value : WordKind → Word → McucoArgs → Option McucoArgs
parse_value word_direction word args =
    store (parse_direction word) (λ v. record args { direction = v })
parse_value word_level word args = store (parse_level word) (λ v. record args { level = v })
parse_value word_port word args = store (parse_port word) (λ v. record args { port = v })
parse_value word_pin word args = store (parse_pin word) (λ v. record args { pin = v })
parse_value word_frequency word args =
    store (parse_frequency word) (λ v. record args { frequency_hz = v })
parse_value word_timer word args = store (parse_timer word) (λ v. record args { timer = v })
parse_value word_polarity word args =
    store (parse_polarity word) (λ v. record args { polarity = v })
parse_value word_duty word args = store (parse_duty word) (λ v. record args { duty_tenths = v })
parse_value word_edge word args = store (parse_edge word) (λ v. record args { edge = v })
parse_value word_bind_edge word args = store (parse_bind_edge word) (λ v. record args { edge = v })
parse_value word_action word args = store (parse_action word) (λ v. record args { action = v })
parse_value word_out_port word args = store (parse_port word) (λ v. record args { out_port = v })
parse_value word_out_pin word args = store (parse_pin word) (λ v. record args { out_pin = v })
parse_value word_none word args = none
