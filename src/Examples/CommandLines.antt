-- ===== src/Examples/CommandLines.antt =====
-- Tests of the command-line tool, and its theorems at concrete command lines.
use mcu_co_sdk.Common.{ℕ, ◌≤◌, ◌⊎◌, ◌↔◌, inr, ◌≡◌, refl, List, [], ◌∷◌, none, some, arith}
use mcu_co_sdk.Protocol.Commands.Request.{InRange, gpio_get, channel_set}
use mcu_co_sdk.Cli.Text.{codes, strtoul, take_digits, skip_spaces, decimal}
use mcu_co_sdk.Cli.Words.{
  McucoArgs, parse_pin, parse_port, word_port, word_pin, parse_frequency, parse_timer, parse_value,
  word_frequency, word_timer,
}
use mcu_co_sdk.Cli.Spellings.{words_of}
use mcu_co_sdk.Cli.Table.{
  Command, run_timer_cfg, run_gpio_get, find_command, parse_values, args_parse_mcuco,
  mcuco_run_command,
}
use mcu_co_sdk.Cli.Runs.{request_of}
use mcu_co_sdk.Cli.Ran.{Ran, mcuco_run_command-Ran}
use mcu_co_sdk.Common.Int.{pos}
use mcu_co_sdk.Cli.Accepted.{args_parse_mcuco-InRange}
use mcu_co_sdk.Cli.Typed.{requested, args_parse_mcuco-words_of}
use mcu_co_sdk.Status.{mcuco_strerror}
use mcu_co_sdk.Status.Distinct.{mcuco_strerror-injective, mcuco_strerror-unknown}
use mcu_co_sdk.Examples.Device.{wire, wire_port, wire_supply}
use mcu_co_sdk.Examples.Runs.{handle, pin_high}

-- `mcuco_args_t mcuco_args = {0};`
abbrev no_args : McucoArgs
no_args = record {
  direction = 0;
  level = 0;
  port = 0;
  pin = 0;
  frequency_hz = 0;
  timer = 0;
  polarity = 0;
  duty_tenths = 0;
  edge = 0;
  action = 0;
  out_port = 0;
  out_pin = 0;
}

-- A negative pin is refused; a frequency that wraps around to 1 Hz is not.
pin_minus_one : parse_pin (codes "-1") ≡ none
unfolding parse_pin
pin_minus_one = refl

frequency_wraps : parse_frequency (codes "-18446744073709551615") ≡ some 1
unfolding parse_frequency strtoul take_digits skip_spaces
frequency_wraps = refl

abbrev timer_row : Command
timer_row = record {
  subsystem = codes "timer";
  verb = codes "cfg";
  value_count = 2;
  values = word_frequency ∷ word_timer ∷ [];
  run = run_timer_cfg;
  usage = codes "<1-1000000> <0-2>";
  summary = codes "Hz, then which timer";
}

-- The row for `gpio get`.
abbrev get_row : Command
get_row = record {
  subsystem = codes "gpio";
  verb = codes "get";
  value_count = 2;
  values = word_port ∷ word_pin ∷ [];
  run = run_gpio_get;
  usage = codes "<pin>";
  summary = codes "-> low | high";
}

abbrev timer_line : List (List ℕ)
timer_line = codes "timer" ∷ codes "cfg" ∷ codes "1000" ∷ codes "2" ∷ []

abbrev timer_args : McucoArgs
timer_args = record no_args { frequency_hz = 1000; timer = 2 }

timer_line_read : args_parse_mcuco timer_line no_args ≡ (some timer_row, timer_args)
unfolding args_parse_mcuco find_command parse_values parse_value parse_frequency parse_timer strtoul
    take_digits skip_spaces
timer_line_read = refl

args_parse_mcuco-InRange_example : InRange (request_of run_timer_cfg timer_args)
args_parse_mcuco-InRange_example =
    args_parse_mcuco-InRange timer_line no_args timer_args timer_row
      (
        (omega arith, omega arith, omega arith, omega arith),
        (omega arith, omega arith, omega arith, omega arith),
        (omega arith, omega arith, omega arith, omega arith),
      )
      timer_line_read

args_parse_mcuco-words_of_example :
    requested (args_parse_mcuco (words_of (channel_set 250 1 7)) no_args)
    ≡ some (channel_set 250 1 7)
args_parse_mcuco-words_of_example =
    args_parse_mcuco-words_of (channel_set 250 1 7) no_args
      (omega arith, (omega arith, omega arith)) (omega arith)

get_line_read :
    args_parse_mcuco (words_of (gpio_get 0 5)) no_args
    ≡ (some get_row, record no_args { port = 0; pin = 5 })
unfolding args_parse_mcuco find_command parse_values parse_value parse_port parse_pin strtoul
    take_digits skip_spaces decimal
get_line_read = refl

mcuco_run_command-Ran_example : Ran wire 100 handle (wire_port (pos 3)) (gpio_get 0 5) pin_high (
    mcuco_run_command wire 100
      (some handle)
      (some get_row)
      (record no_args { port = 0; pin = 5 })
      pin_high)
mcuco_run_command-Ran_example =
    mcuco_run_command-Ran wire 100 handle (wire_port (pos 3)) (gpio_get 0 5) no_args
      (record no_args { port = 0; pin = 5 }) get_row pin_high (omega arith, omega arith) tt
      get_line_read (omega (arith, wire_supply (pos 3) pin_high))

mcuco_strerror-injective_example : ◌≡◌ {A = ℕ} 0x82 0x82
mcuco_strerror-injective_example =
    mcuco_strerror-injective 0x82 0x82 (inr (omega arith, omega arith))
      (inr (omega arith, omega arith)) refl

mcuco_strerror-unknown_example :
    (mcuco_strerror 11 ≡ codes "Unknown status code")
    ↔ (¬ ((11 ≤ 10) ⊎ ((0x80 ≤ 11) × (11 ≤ 0x84))))
mcuco_strerror-unknown_example = mcuco_strerror-unknown 11
