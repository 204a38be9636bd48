-- ===== src/Cli/Help.antt =====
-- `mcuco_print_commands` of cli/commands.c and `print_help` of cli/main.c.
use mcu_co_sdk.Common.{
  ℕ, ◌-◌, List, [], ◌∷◌, ◌++◌, Option, none, some, Bool, true, false, not, length, replicate,
  if◌then◌else◌,
}
use mcu_co_sdk.System.{Stream, System}
use mcu_co_sdk.Cli.Text.{codes, same_word, decimal}
use mcu_co_sdk.Cli.Table.{Command, commands}

abbrev pub timeout_min_ms : ℕ
timeout_min_ms = 20

abbrev pub timeout_max_ms : ℕ
timeout_max_ms = 10000

-- `%-<width>s`
abbrev pad : ℕ → List ℕ → List ℕ
pad width text = text ++ replicate (width - length text) b' '

-- Whether the row's subsystem is named: in the first row, and when it differs from that of the row
-- before.
abbrev pub starts_subsystem : Option Command → Command → Bool
starts_subsystem none command = true
starts_subsystem (some before) command = not (same_word command.subsystem before.subsystem)

abbrev pub is_some : Option Command → Bool
is_some none = false
is_some (some command) = true

-- The line of a row.
abbrev pub row_line : Bool → Command → List ℕ
row_line named command =
    codes "  "
    ++ pad 6 (if named then command.subsystem else [])
    ++ codes " "
    ++ pad 8 command.verb
    ++ codes " "
    ++ pad 28 command.usage
    ++ codes " "
    ++ command.summary
    ++ codes "\n"

module _ (sys : System) where
  open sys use {State}

  -- The loop over the rows, with the row before.
  unfoldable pub print_rows : Stream → Option Command → List Command → State → State
  print_rows stream before [] s = s
  print_rows stream before (command ∷ rows) s =
      let named = starts_subsystem before command in
      let s =
        if named then (if is_some before then sys.print stream (codes "\n") s else s) else s in
      print_rows stream (some command) rows (sys.print stream (row_line named command) s)

  unfoldable pub mcuco_print_commands : Stream → State → State
  mcuco_print_commands stream s = print_rows stream none commands s

  -- One call of `fprintf` for each text.
  unfoldable pub print_texts : Stream → List (List ℕ) → State → State
  print_texts stream [] s = s
  print_texts stream (text ∷ texts) s = print_texts stream texts (sys.print stream text s)

  unfoldable pub print_help : Stream → State → State
  print_help stream s =
      let s =
        print_texts stream
          (codes "usage: mcu-co-cli <subsystem> <verb> <values...> [--options anywhere]\n"
            ∷ codes "\n"
            ∷ [])
          s in
      let s = mcuco_print_commands stream s in
      print_texts stream
        (codes "\n"
          ∷ codes "  a pin is two words, port then number: A 5 - ports A-G in capitals, 0-15\n"
          ∷ codes "  edge is off, rising, falling or both - bind takes all but off\n"
          ∷ codes "  action is low, high or toggle\n"
          ∷ codes "  polarity is active-high or active-low\n"
          ∷ codes "\n"
          ∷ codes "pwm pins, by timer (from firmware peripherals/timer.c):\n"
          ∷ codes "  timer 0   TIM2    A5     A1     B10    B11\n"
          ∷ codes "  timer 1   TIM3    C6     C7     C8     C9\n"
          ∷ codes "  timer 2   TIM4    B6     B7     B8     B9\n"
          ∷ codes "\n"
          ∷ codes "  Reference only. The MCU resolves which channel a pin is and refuses a pin\n"
          ∷ codes "  with none; no command takes a timer for a pwm operation.\n"
          ∷ codes "\n"
          ∷ codes "options, valid on every command and in any position:\n"
          ∷ codes "  -d, --device <path>    serial port    [default: /dev/ttyACM0]\n"
          ∷ (codes "  -t, --timeout <ms>     deadline       [1000, "
              ++ decimal timeout_min_ms
              ++ codes "-"
              ++ decimal timeout_max_ms
              ++ codes "]\n")
          ∷ codes "  -h, --help\n"
          ∷ codes "  -V, --version\n"
          ∷ [])
        s
