-- ===== src/Cli/Main.antt =====
-- `main` of cli/main.c. The versions that the build fills in are a parameter.
pub mod Leaks
pub mod Serve
pub mod Session
use mcu_co_sdk.Common.{
  ℕ, List, [], ◌∷◌, ◌++◌, Option, none, some, Bool, true, false, ◌==◌, if◌then◌else◌, length, take,
  drop,
}
use mcu_co_sdk.Common.Int.{ℤ, pos, pos_part, is_nonpos, ◌-ℤ◌}
use mcu_co_sdk.Values.{mcuco_status_ok}
use mcu_co_sdk.Status.{mcuco_strerror}
use mcu_co_sdk.Os.{Call, failed, returned, M, pure, lift, ◌>>=◌}
use mcu_co_sdk.System.{stdout, stderr, System}
use mcu_co_sdk.Mcuco.Handle.{Handle, mcuco_open, mcuco_close}
use mcu_co_sdk.Cli.Text.{codes}
use mcu_co_sdk.Cli.Words.{Word, McucoArgs}
use mcu_co_sdk.Cli.Table.{Command, args_parse_mcuco, mcuco_run_command}
use mcu_co_sdk.Cli.Help.{print_help, print_texts}
use mcu_co_sdk.Cli.Options.{Config, Getopt, parse_config}

-- `MCU_CO_CLI_VERSION`, and `MCUCO_VERSION`, which `mcuco_version` gives.
pub record Build : Type 0 where
  pub mcu_co_cli_version : List ℕ
  pub mcuco_version : List ℕ

-- `mcuco_args_t mcuco_args = {0};`
abbrev pub zero_args : McucoArgs
zero_args = record {
  direction = 0;
  level = 0;
  port = 0;
  pin = 0;
  frequency_hz = 0;
  timer = 0;
  polarity = 0;
  duty_tenths = 0;
  edge = 0;
  action = 0;
  out_port = 0;
  out_pin = 0;
}

-- `(status == MCUCO_STATUS_OK) ? 0 : 1`
abbrev pub exit_code : ℕ → ℕ
exit_code status = if status == mcuco_status_ok then 0 else 1

-- `&argv[word_index]`, `argc - word_index` words long.
abbrev pub words_from : ℕ → ℤ → List Word → List Word
words_from argc word_index argv =
    take (pos_part (pos argc -ℤ word_index)) (drop (pos_part word_index) argv)

module _ (sys : System) where
  open sys use {State}

  -- What a command printed on the standard output.
  abbrev pub put_output : List ℕ → State → State
  put_output [] s = s
  put_output (c ∷ cs) s = sys.print stdout (c ∷ cs) s

  -- What follows `mcuco_open`.
  unfoldable pub run_on : ℕ → Command → McucoArgs → Call Handle → M State ℕ
  run_on fuel command mcuco_args (failed errno) =
      lift (λ s. (1, sys.print stderr (codes "mcu-co-cli: could not open mcuco device\n") s))
  run_on fuel command mcuco_args (returned mcu) =
      mcuco_run_command sys.os fuel (some mcu.mcu) (some command) mcuco_args >>= λ (status, output).
      lift (λ s.
        let s = sys.print stderr (mcuco_strerror status ++ codes "\n") (put_output output s) in
        (exit_code status, mcuco_close sys (some mcu) s))

  -- What follows the options.
  unfoldable pub run_words : ℕ → Config → Option Command × McucoArgs → M State ℕ
  run_words fuel config (none, mcuco_args) = lift (λ s. (
    1,
    print_texts sys stderr
        (codes "mcu-co-cli: bad command\n" ∷ codes "try 'mcu-co-cli --help'\n" ∷ []) s,
  ))
  run_words fuel config (some command, mcuco_args) =
      mcuco_open sys fuel (some config.device_path) (pos config.timeout)
      >>= run_on fuel command mcuco_args

  unfoldable pub main : Getopt State → Build → ℕ → List Word → M State ℕ
  main getopt build fuel argv = parse_config sys getopt fuel argv >>= λ (word_index, argv', config).
      if is_nonpos word_index
      then lift (λ s. (
        1,
        sys.print stderr
            (codes "usage: mcu-co-cli <subsystem> <verb> <values...> [--options anywhere]\n") s,
      ))
      else if config.help
      then lift (λ s. (0, print_help sys stdout s))
      else if config.version
      then lift (λ s. (
        0,
        sys.print stdout
            (codes "mcu-co-cli "
              ++ build.mcu_co_cli_version
              ++ codes " (libmcuco "
              ++ build.mcuco_version
              ++ codes ")\n")
            s,
      ))
      else run_words fuel config
          (args_parse_mcuco (words_from (length argv) word_index argv') zero_args)
