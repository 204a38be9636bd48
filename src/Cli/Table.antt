-- ===== src/Cli/Table.antt =====
-- The command table of cli/commands.c, the reading of a command line by it, and the running of a
-- command. A call returns its status and what it prints on the standard output.
use Prim.Native.String.{String}
use mcu_co_sdk.Common.{
  ℕ, zero, suc, ◌+◌, ◌/◌, ◌%◌, List, [], ◌∷◌, ◌++◌, Option, none, some, Bool, true, false, ◌&&◌,
  ltb, ◌==◌, ◌!=◌, if◌then◌else◌, length,
}
use mcu_co_sdk.Os.{Os, M, pure, ◌>>=◌}
use mcu_co_sdk.Values.{mcuco_status_ok, mcuco_status_err_arg, level_low, level_high}
use mcu_co_sdk.Mcuco.{
  Mcuco, mcuco_probe, mcuco_reset, mcuco_gpio_cfg, mcuco_gpio_set, mcuco_gpio_toggle,
  mcuco_gpio_get, mcuco_gpio_irq_cfg, mcuco_gpio_irq_bind, mcuco_gpio_irq_unbind,
  mcuco_pwm_group_cfg, mcuco_pwm_group_get, mcuco_pwm_group_release, mcuco_pwm_channel_cfg,
  mcuco_pwm_channel_set, mcuco_pwm_channel_get, mcuco_pwm_channel_release,
}
use mcu_co_sdk.Cli.Text.{codes, same_word, decimal}
use mcu_co_sdk.Cli.Words.{
  Word, McucoArgs, WordKind, word_none, word_direction, word_level, word_port, word_pin,
  word_frequency, word_timer, word_polarity, word_duty, word_edge, word_bind_edge, word_action,
  word_out_port, word_out_pin, parse_value,
}

-- The functions that `run` of a row points to.
pub data Run : Type 0 where
  run_probe run_reset run_gpio_cfg run_gpio_set run_gpio_get run_gpio_toggle : Run
  run_timer_cfg run_timer_get run_timer_release run_pwm_cfg run_pwm_set run_pwm_get : Run
  run_pwm_release run_irq_cfg run_irq_bind run_irq_unbind : Run

-- `command_t`
pub record Command : Type 0 where
  pub subsystem : List ℕ
  pub verb : List ℕ
  pub value_count : ℕ
  pub values : List WordKind
  pub run : Run
  pub usage : List ℕ
  pub summary : List ℕ

abbrev row : String → String → ℕ → List WordKind → Run → String → String → Command
row s v n kinds f usage summary = record {
  subsystem = codes s;
  verb = codes v;
  value_count = n;
  values = kinds;
  run = f;
  usage = codes usage;
  summary = codes summary;
}

abbrev pub commands : List Command
commands =
    row "mcu" "probe" 0 (word_none ∷ []) run_probe "" "check the link"
    ∷ row "mcu" "reset" 0 (word_none ∷ []) run_reset "" "reboot the MCU"
    ∷ row "gpio" "cfg" 3 (word_direction ∷ word_port ∷ word_pin ∷ []) run_gpio_cfg
        "<input|output> <pin>" "set a pin's direction"
    ∷ row "gpio" "set" 3 (word_level ∷ word_port ∷ word_pin ∷ []) run_gpio_set "<low|high> <pin>"
        "drive an output pin"
    ∷ row "gpio" "get" 2 (word_port ∷ word_pin ∷ []) run_gpio_get "<pin>" "-> low | high"
    ∷ row "gpio" "toggle" 2 (word_port ∷ word_pin ∷ []) run_gpio_toggle "<pin>"
        "-> the level after the flip"
    ∷ row "timer" "cfg" 2 (word_frequency ∷ word_timer ∷ []) run_timer_cfg "<1-1000000> <0-2>"
        "Hz, then which timer"
    ∷ row "timer" "get" 1 (word_timer ∷ []) run_timer_get "<0-2>" "-> achieved Hz"
    ∷ row "timer" "release" 1 (word_timer ∷ []) run_timer_release "<0-2>"
        "stop it, freezing its pins"
    ∷ row "pwm" "cfg" 3 (word_polarity ∷ word_port ∷ word_pin ∷ []) run_pwm_cfg "<polarity> <pin>"
        "claim a pin, silent at 0%"
    ∷ row "pwm" "set" 3 (word_duty ∷ word_port ∷ word_pin ∷ []) run_pwm_set "<0-100> <pin>"
        "percent, then the pin"
    ∷ row "pwm" "get" 2 (word_port ∷ word_pin ∷ []) run_pwm_get "<pin>" "-> percent, one decimal"
    ∷ row "pwm" "release" 2 (word_port ∷ word_pin ∷ []) run_pwm_release "<pin>" "free one pin"
    ∷ row "irq" "cfg" 3 (word_edge ∷ word_port ∷ word_pin ∷ []) run_irq_cfg "<edge> <pin>"
        "arm or disarm a trigger"
    ∷ row "irq" "bind" 6
        (word_bind_edge ∷ word_port ∷ word_pin ∷ word_action ∷ word_out_port ∷ word_out_pin ∷ [])
        run_irq_bind "<edge> <pin> <action> <pin>" "drive one pin from another"
    ∷ row "irq" "unbind" 2 (word_port ∷ word_pin ∷ []) run_irq_unbind "<pin>"
        "drop the action, stay armed"
    ∷ []

-- The loop over the rows.
unfoldable pub find_command : List Command → Word → Word → Option Command
find_command [] subsystem verb = none
find_command (command ∷ rows) subsystem verb =
    let more = find_command rows subsystem verb in
    if same_word subsystem command.subsystem && same_word verb command.verb
    then some command
    else more

-- `values[i]`, in a row that the compiler fills up with zeros, and `words[i]`.
abbrev pub get_kind : List WordKind → ℕ → WordKind
get_kind [] i = word_none
get_kind (kind ∷ kinds) zero = kind
get_kind (kind ∷ kinds) (suc i) = get_kind kinds i

abbrev pub get_word : List Word → ℕ → Word
get_word [] i = []
get_word (word ∷ words) zero = word
get_word (word ∷ words) (suc i) = get_word words i

-- The loop over `value_index`, with the rounds that are left: whether all the words were read, and
-- the arguments as they are left.
unfoldable pub parse_values : ℕ → ℕ → List WordKind → List Word → McucoArgs → Bool × McucoArgs
parse_values zero i kinds words args = (true, args)
parse_values (suc left) i kinds words args =
    elim (parse_value (get_kind kinds i) (get_word words (2 + i)) args) [
      | none ↦ (false, args)
      | some args' ↦ parse_values left (i + 1) kinds words args'
    ]

-- The command, `none` for -1, and the arguments as they are left.
unfoldable pub args_parse_mcuco : List Word → McucoArgs → Option Command × McucoArgs
args_parse_mcuco words args =
    if ltb (length words) 2
    then (none, args)
    else elim (find_command commands (get_word words 0) (get_word words 1)) [
      | none ↦ (none, args)
      | some command ↦
          if length words != 2 + command.value_count
          then (none, args)
          else (let parsed = parse_values command.value_count 0 command.values words args in
              (if parsed.0 then some command else none, parsed.1))
    ]

-- `print_level`
abbrev pub print_level : ℕ → List ℕ
print_level level = if level == level_high then codes "high\n" else codes "low\n"

abbrev pub print_number : ℕ → List ℕ
print_number n = decimal n ++ codes "\n"

abbrev pub print_tenths : ℕ → List ℕ
print_tenths n = decimal (n / 10) ++ codes "." ++ decimal (n % 10) ++ codes "\n"

-- A call without a value prints nothing; one with a value prints it when it succeeded.
abbrev pub silent : {S : Type 0} → M S ℕ → M S (ℕ × List ℕ)
silent m = m >>= λ status. pure (status, [])

abbrev pub print_value : Option ℕ → (ℕ → List ℕ) → List ℕ
print_value none print = []
print_value (some value) print = print value

abbrev pub printing : {S : Type 0} → M S (ℕ × Option ℕ) → (ℕ → List ℕ) → M S (ℕ × List ℕ)
printing m print = m >>= λ (status, value).
    pure (status, if status == mcuco_status_ok then print_value value print else [])

module _ (os : Os) (fuel : ℕ) where
  open os use {State}

  unfoldable pub run_of : Run → Option Mcuco → McucoArgs → M State (ℕ × List ℕ)
  run_of run_probe mcu args = silent (mcuco_probe os fuel mcu)
  run_of run_reset mcu args = silent (mcuco_reset os fuel mcu)
  run_of run_gpio_cfg mcu args =
      silent (mcuco_gpio_cfg os fuel mcu args.direction args.port args.pin)
  run_of run_gpio_set mcu args = silent (mcuco_gpio_set os fuel mcu args.level args.port args.pin)
  run_of run_gpio_get mcu args =
      printing (mcuco_gpio_get os fuel mcu args.port args.pin (some level_low)) print_level
  run_of run_gpio_toggle mcu args =
      printing (mcuco_gpio_toggle os fuel mcu args.port args.pin (some level_low)) print_level
  run_of run_timer_cfg mcu args =
      silent (mcuco_pwm_group_cfg os fuel mcu args.frequency_hz args.timer)
  run_of run_timer_get mcu args =
      printing (mcuco_pwm_group_get os fuel mcu args.timer (some 0)) print_number
  run_of run_timer_release mcu args = silent (mcuco_pwm_group_release os fuel mcu args.timer)
  run_of run_pwm_cfg mcu args =
      silent (mcuco_pwm_channel_cfg os fuel mcu args.polarity args.port args.pin)
  run_of run_pwm_set mcu args =
      silent (mcuco_pwm_channel_set os fuel mcu args.duty_tenths args.port args.pin)
  run_of run_pwm_get mcu args =
      printing (mcuco_pwm_channel_get os fuel mcu args.port args.pin (some 0)) print_tenths
  run_of run_pwm_release mcu args =
      silent (mcuco_pwm_channel_release os fuel mcu args.port args.pin)
  run_of run_irq_cfg mcu args = silent (mcuco_gpio_irq_cfg os fuel mcu args.edge args.port args.pin)
  run_of run_irq_bind mcu args = silent (
      mcuco_gpio_irq_bind os fuel mcu args.edge args.port args.pin args.action args.out_port
        args.out_pin)
  run_of run_irq_unbind mcu args = silent (mcuco_gpio_irq_unbind os fuel mcu args.port args.pin)

  -- `none` is a NULL `command`.
  unfoldable pub mcuco_run_command :
      Option Mcuco → Option Command → McucoArgs → M State (ℕ × List ℕ)
  unfolding run_of
  mcuco_run_command mcu none args = pure (mcuco_status_err_arg, [])
  mcuco_run_command mcu (some command) args = run_of command.run mcu args
