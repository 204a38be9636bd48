-- ===== src/Cli/Main/Leaks.antt =====
-- The tool ends with a status for its caller, and has closed and freed what it opened and allocated.
use mcu_co_sdk.Common.{
  ℕ, ◌≤◌, ◌<◌, ◌≡◌, refl, ◌∙◌, List, [], ◌∷◌, Option, none, some, Bool, true, false, length,
  if◌then◌else◌, arith,
}
use mcu_co_sdk.Common.Int.{pos, is_nonpos}
use mcu_co_sdk.Protocol.Commands.Request.{InRange}
use mcu_co_sdk.Os.{Call, failed, returned}
use mcu_co_sdk.Os.Ends.{Ends, Ends-some, Ends-mono, Ends->>=, Ends-if}
use mcu_co_sdk.System.{Stream, stdout, stderr, System}
use mcu_co_sdk.System.Laws.{Laws}
use mcu_co_sdk.Uart.Opened.{Calm, Calm-refl, Calm-trans}
use mcu_co_sdk.Mcuco.Calls.{call}
use mcu_co_sdk.Mcuco.Handle.{Handle, mcuco_open}
use mcu_co_sdk.Mcuco.Steady.{Steady, IsEnough, call-Steady}
use mcu_co_sdk.Mcuco.Lifecycle.{Opened, mcuco_open-OpenEnds, mcuco_close-with_handle}
use mcu_co_sdk.Cli.Text.{codes}
use mcu_co_sdk.Cli.Bounds.{InBounds}
use mcu_co_sdk.Cli.Words.{Word, McucoArgs}
use mcu_co_sdk.Cli.Table.{Command, commands, args_parse_mcuco, mcuco_run_command}
use mcu_co_sdk.Cli.Runs.{request_of, mcuco_run_command-call}
use mcu_co_sdk.Cli.Accepted.{args_parse_mcuco-InRange}
use mcu_co_sdk.Cli.Help.{
  is_some, print_rows, mcuco_print_commands, print_texts, print_help, starts_subsystem,
}
use mcu_co_sdk.Cli.Options.{Config, Getopt, GetoptLaws, parse_config}
use mcu_co_sdk.Cli.Options.Loop.{parse_config-Ends}
use mcu_co_sdk.Cli.Main.{
  Build, zero_args, exit_code, words_from, put_output, run_on, run_words, main,
}

pub exit_code_le : (status : ℕ) → exit_code status ≤ 1
exit_code_le status = ground arith

zero_args-InBounds : InBounds zero_args
zero_args-InBounds = (
  (omega arith, omega arith, omega arith, omega arith),
  (omega arith, omega arith, omega arith, omega arith),
  (omega arith, omega arith, omega arith, omega arith),
)

module _ (sys : System) (laws : Laws sys) where
  put_output-Calm : (text : List ℕ) (s : sys.State) → Calm sys laws s (put_output sys text s)
  put_output-Calm [] s = Calm-refl sys laws s
  put_output-Calm (c ∷ cs) s = laws.print_quiet stdout (c ∷ cs) s

  print_texts-Calm :
      (stream : Stream) (texts : List (List ℕ)) (s : sys.State)
      → Calm sys laws s (print_texts sys stream texts s)
  unfolding print_texts
  print_texts-Calm stream [] s = Calm-refl sys laws s
  print_texts-Calm stream (text ∷ texts) s =
      Calm-trans sys laws (laws.print_quiet stream text s) (print_texts-Calm stream texts _)

  print_rows-Calm :
      (stream : Stream) (before : Option Command) (rows : List Command) (s : sys.State)
      → Calm sys laws s (print_rows sys stream before rows s)
  unfolding print_rows
  print_rows-Calm stream before [] s = Calm-refl sys laws s
  print_rows-Calm stream before (command ∷ rows) s =
      Calm-trans sys laws (when (starts_subsystem before command) (later before)) (
        Calm-trans sys laws (laws.print_quiet stream _ _)
          (print_rows-Calm stream (some command) rows _))
    where
      when : {t : sys.State} (b : Bool) → Calm sys laws s t → Calm sys laws s (if b then t else s)
      when true p = p
      when false p = Calm-refl sys laws s

      later :
          (before : Option Command)
          → Calm sys laws s (if is_some before then sys.print stream (codes "\n") s else s)
      later none = Calm-refl sys laws s
      later (some b) = laws.print_quiet stream _ s

  print_help-Calm : (stream : Stream) (s : sys.State) → Calm sys laws s (print_help sys stream s)
  unfolding print_help mcuco_print_commands
  print_help-Calm stream s =
      Calm-trans sys laws (print_texts-Calm stream _ s)
        (Calm-trans sys laws (print_rows-Calm stream none commands _) (print_texts-Calm stream _ _))

  -- The tool has ended with one of its two exit codes and holds what it held before.
  abbrev pub Clean : sys.State → ℕ → sys.State → Type 0
  Clean s code s' = (code ≤ 1) × (laws.view s' ≡ laws.view s)

  run_command-Ends :
      (fuel : ℕ) (h : Handle) (command : Command) (args : McucoArgs) (s : sys.State)
      → InRange (request_of command.run args)
      → IsEnough sys laws fuel s
      → Ends
          (λ _ s'. Steady sys laws s s')
          (mcuco_run_command sys.os fuel (some h.mcu) (some command) args s)
  run_command-Ends fuel h command args s valid enough =
      let r = request_of command.run args in
      rw (mcuco_run_command-call sys.os fuel (some h.mcu) command args s) (
        Ends->>= (call sys.os fuel r (some h.mcu) (some 0)) _ s
          (call-Steady sys laws fuel h.mcu r 0 s valid enough)
          (λ v s' steady. Ends-some (λ _ s'. Steady sys laws s s') _ s' steady))

  run_on-Ends :
      (fuel : ℕ) (command : Command) (args : McucoArgs) (timeout : ℕ) (s s1 : sys.State)
      → InRange (request_of command.run args)
      → IsEnough sys laws fuel s
      → (handle : Call Handle) → Opened sys laws (pos timeout) s (handle, s1)
      → Ends (Clean s) (run_on sys fuel command args handle s1)
  unfolding run_on
  run_on-Ends fuel command args timeout s s1 valid enough (failed e) opened =
      Ends-some (Clean s) 1 _ (omega arith, (laws.print_quiet stderr _ s1).0 ∙ opened)
  run_on-Ends fuel command args timeout s s1 valid enough (returned h)
        (is_fd, t, view, conf, fewer) =
      Ends->>= (mcuco_run_command sys.os fuel (some h.mcu) (some command) args) _ s1
        (run_command-Ends fuel h command args s1 valid (λ d. omega (arith, enough d, fewer d)))
        (λ (status, output) s2 steady. Ends-some (Clean s) (exit_code status) _ (
          exit_code_le status,
          mcuco_close-with_handle sys laws h (laws.view s) _ is_fd
              ((laws.print_quiet stderr _ _).0 ∙ (put_output-Calm output s2).0 ∙ steady.0.0 ∙ view),
        ))

  run_words-Ends :
      (fuel : ℕ) (config : Config) (words : List Word) (s : sys.State)
      → IsEnough sys laws fuel s
      → Ends (Clean s) (run_words sys fuel config (args_parse_mcuco words zero_args) s)
  unfolding run_words
  run_words-Ends fuel config words s enough = go (args_parse_mcuco words zero_args) refl
    where
      go :
          (parsed : Option Command × McucoArgs)
          → args_parse_mcuco words zero_args ≡ parsed
          → Ends (Clean s) (run_words sys fuel config parsed s)
      go (none, args) e = Ends-some (Clean s) 1 _ (omega arith, (print_texts-Calm stderr _ s).0)
      go (some command, args) e =
          Ends->>= (mcuco_open sys fuel (some config.device_path) (pos config.timeout)) _ s
            (mcuco_open-OpenEnds sys laws fuel (some config.device_path) (pos config.timeout) s
              enough)
            (λ handle s1 opened.
              run_on-Ends fuel command args config.timeout s s1
                (args_parse_mcuco-InRange words zero_args args command zero_args-InBounds e) enough
                handle opened)

  -- With fuel for the options and for what the ports can deliver, the tool ends on every command
  -- line, with the exit code 0 or 1. By then it has closed every descriptor that it opened and freed
  -- every handle that it allocated.
  pub main-Ends :
      (getopt : Getopt sys.State) (gl : GetoptLaws sys laws getopt) (build : Build) (fuel : ℕ)
      (argv : List Word) (s : sys.State)
      → IsEnough sys laws fuel s
      → gl.remaining argv s < fuel
      → Ends (Clean s) (main sys getopt build fuel argv s)
  unfolding main
  main-Ends getopt gl build fuel argv s enough options =
      Ends->>= (parse_config sys getopt fuel argv) _ s
        (parse_config-Ends sys laws getopt gl fuel argv s options)
        (λ (word_index, argv', config) s1 parsed.
          Ends-if (is_nonpos word_index) _ _ s1
            (λ bad.
              Ends-some (Clean s) 1 _ (omega arith, (laws.print_quiet stderr _ s1).0 ∙ parsed.0.0))
            (λ good.
              Ends-if config.help _ _ s1
                (λ help.
                  Ends-some (Clean s) 0 _ (omega arith, (print_help-Calm stdout s1).0 ∙ parsed.0.0))
                (λ no_help.
                  Ends-if config.version _ _ s1
                    (λ version.
                      Ends-some (Clean s) 0 _
                        (omega arith, (laws.print_quiet stdout _ s1).0 ∙ parsed.0.0))
                    (λ no_version.
                      Ends-mono
                        (run_words-Ends fuel config (words_from (length argv) word_index argv') s1
                          (λ d. omega (arith, enough d, parsed.0.1 d)))
                        (λ code s2 clean. (clean.0, clean.1 ∙ parsed.0.0))))))
