-- ===== src/Cli/Main/Serve.antt =====
-- `main` of cli/main.c on the words of a request, as one call of the library.
use mcu_co_sdk.Common.{ℕ, ◌≡◌, refl, ap, ◌∙◌, ◌++◌, List, Option, none, some, false, length}
use mathlib.Core.Path.{fun_ext}
use mcu_co_sdk.Common.Int.{ℤ, pos, is_nonpos}
use mcu_co_sdk.Status.{mcuco_strerror}
use mcu_co_sdk.Protocol.Commands.Request.{Request, InRange}
use mcu_co_sdk.Os.{Call, failed, returned, M, lift, ◌>>=◌}
use mcu_co_sdk.Os.Ends.{>>=-eq, >>=-some}
use mcu_co_sdk.System.{stderr, System}
use mcu_co_sdk.Mcuco.Calls.{call}
use mcu_co_sdk.Mcuco.Handle.{Handle, mcuco_open, mcuco_close}
use mcu_co_sdk.Cli.Text.{codes}
use mcu_co_sdk.Cli.Words.{Word, McucoArgs}
use mcu_co_sdk.Cli.Table.{Command, args_parse_mcuco, mcuco_run_command, printing}
use mcu_co_sdk.Cli.Runs.{request_of, print_of, mcuco_run_command-call}
use mcu_co_sdk.Cli.Spellings.{words_of, IsWhole}
use mcu_co_sdk.Cli.Typed.{requested, args_parse_mcuco-words_of}
use mcu_co_sdk.Cli.Options.{Config, Getopt, parse_config}
use mcu_co_sdk.Cli.Main.{
  Build, zero_args, exit_code, words_from, put_output, run_on, run_words, main,
}

module _ (sys : System) (fuel : ℕ) where
  -- One call of the library on the open handle, its value and its status printed, and the handle
  -- closed.
  abbrev pub serve : Request → Call Handle → M sys.State ℕ
  serve r (failed errno) =
      lift (λ s. (1, sys.print stderr (codes "mcu-co-cli: could not open mcuco device\n") s))
  serve r (returned h) =
      printing (call sys.os fuel r (some h.mcu) (some 0)) (print_of r) >>= λ (status, output).
      lift (λ s. (
        exit_code status,
        mcuco_close sys (some h)
            (sys.print stderr (mcuco_strerror status ++ codes "\n") (put_output sys output s)),
      ))

  run_on-serve :
      (command : Command) (args : McucoArgs) (handle : Call Handle) (s : sys.State)
      → run_on sys fuel command args handle s ≡ serve (request_of command.run args) handle s
  unfolding run_on
  run_on-serve command args (failed e) s = refl
  run_on-serve command args (returned h) s =
      >>=-eq (mcuco_run_command sys.os fuel (some h.mcu) (some command) args)
        (printing (call sys.os fuel (request_of command.run args) (some h.mcu) (some 0))
          (print_of (request_of command.run args)))
        _ s (mcuco_run_command-call sys.os fuel (some h.mcu) command args s)

  run_words-serve :
      (config : Config) (r : Request) (parsed : Option Command × McucoArgs) (s : sys.State)
      → requested parsed ≡ some r
      → run_words sys fuel config parsed s
        ≡ (mcuco_open sys fuel (some config.device_path) (pos config.timeout) >>= serve r) s
  unfolding run_words
  run_words-serve config r (none, args) s h = absurd (none_ne h)
    where
      none_ne : none ≡ some r → ⊥
      none_ne k = cc
  run_words-serve config r (some command, args) s h =
      let same : run_on sys fuel command args ≡ serve r = fun_ext (λ handle.
        fun_ext
          (λ s. run_on-serve command args handle s ∙ ap (λ r. serve r handle s) (some_eq h))) in
      ap (λ f. (mcuco_open sys fuel (some config.device_path) (pos config.timeout) >>= f) s) same
    where
      some_eq : {q : Request} → some q ≡ some r → q ≡ r
      some_eq k = cc

  -- After options that ask for neither help nor version, the tool on the words of a request.
  pub main-serve :
      (getopt : Getopt sys.State) (build : Build) (r : Request) (argv argv' : List Word) (index : ℤ)
      (config : Config) (s s1 : sys.State)
      → InRange r
      → IsWhole r
      → parse_config sys getopt fuel argv s ≡ some ((index, argv', config), s1)
      → is_nonpos index ≡ false
      → config.help ≡ false
      → config.version ≡ false
      → words_from (length argv) index argv' ≡ words_of r
      → main sys getopt build fuel argv s
        ≡ (mcuco_open sys fuel (some config.device_path) (pos config.timeout) >>= serve r) s1
  unfolding main run_words
  main-serve getopt build r argv argv' index config s s1 valid whole parsed positive no_help
        no_version words =
      >>=-some (parse_config sys getopt fuel argv) _ s s1 (index, argv', config) parsed
      ∙ rw (positive, no_help, no_version, words)
          (run_words-serve config r (args_parse_mcuco (words_of r) zero_args) s1
            (args_parse_mcuco-words_of r zero_args valid whole))
