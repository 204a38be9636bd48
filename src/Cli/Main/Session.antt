-- ===== src/Cli/Main/Session.antt =====
-- The tool, `main` of cli/main.c, from the words of a request to its exit code.
use mcu_co_sdk.Common.{
  ℕ, ◌≡◌, ◌≢◌, ◌⊎◌, inl, inr, refl, sym, ◌++◌, ◌∷◌, [], List, Option, some, false, length, ◌==◌,
  Bool-cases, arith,
}
use mathlib.Core.Path.{subst}
use mcu_co_sdk.Common.Int.{ℤ, pos, is_nonpos}
use mcu_co_sdk.Status.{mcuco_strerror}
use mcu_co_sdk.Protocol.Commands.Request.{Request, InRange}
use mcu_co_sdk.Os.{Call, failed, returned, ◌>>=◌}
use mcu_co_sdk.Os.Ends.{>>=-some}
use mcu_co_sdk.System.{stdout, stderr, System}
use mcu_co_sdk.System.Laws.{Laws}
use mcu_co_sdk.Values.{mcuco_status_ok}
use mcu_co_sdk.Mcuco.Steady.{IsEnough}
use mcu_co_sdk.Mcuco.Lifecycle.{Opened, mcuco_open-OpenEnds}
use mcu_co_sdk.Mcuco.Calls.{call}
use mcu_co_sdk.Mcuco.Handle.{Handle, mcuco_open, mcuco_close}
use mcu_co_sdk.Cli.Text.{codes}
use mcu_co_sdk.Cli.Words.{Word}
use mcu_co_sdk.Cli.Table.{printing}
use mcu_co_sdk.Cli.Runs.{print_of}
use mcu_co_sdk.Cli.Printed.{Printed}
use mcu_co_sdk.Cli.Ran.{printing-Ran}
use mcu_co_sdk.Cli.Spellings.{words_of, IsWhole}
use mcu_co_sdk.Cli.Options.{Config, Getopt, parse_config}
use mcu_co_sdk.Cli.Main.Serve.{serve, main-serve}
use mcu_co_sdk.Cli.Main.{Build, exit_code, words_from, put_output, main}

module _ (sys : System) (laws : Laws sys) (fuel : ℕ) where
  -- A tool that got a handle made the request's call on it. On the standard output stands the text
  -- that shows its value, if any; the message of its status follows on the standard error; the
  -- handle is closed; and the exit code is 0 for a success and 1 for an error.
  pub record Served (r : Request) (h : Handle) (s : sys.State) (result : Option (ℕ × sys.State))
      : Type 0 where
    pub status : ℕ
    pub value : Option ℕ
    pub text : List ℕ
    pub message : List ℕ
    pub code : ℕ
    pub after : sys.State
    pub shown : sys.State
    pub called : call sys.os fuel r (some h.mcu) (some 0) s ≡ some ((status, value), after)
    pub printed : Printed r status value text
    pub shows :
        ((text ≡ []) × (shown ≡ after)) ⊎ ((text ≢ []) × (shown ≡ sys.print stdout text after))
    pub exits :
        ((status ≡ mcuco_status_ok) × (message ≡ codes "Success\n") × (code ≡ 0))
        ⊎ ((status ≢ mcuco_status_ok)
            × (message ≡ mcuco_strerror status ++ codes "\n")
            × (code ≡ 1))
    pub returns : result ≡ some (code, mcuco_close sys (some h) (sys.print stderr message shown))

  -- The tool opens the device. Without a handle it says so and ends with 1; with one it serves the
  -- request.
  abbrev pub Told : Request → Config → sys.State → Option (ℕ × sys.State) → Type 0
  Told r config s result =
      let opened = mcuco_open sys fuel (some config.device_path) (pos config.timeout) s in
      ((errno : ℕ) × (s' : sys.State) × (opened ≡ some (failed errno, s'))
        × (result
            ≡ some (1, sys.print stderr (codes "mcu-co-cli: could not open mcuco device\n") s')))
      ⊎ ((h : Handle) × (s' : sys.State) × (opened ≡ some (returned h, s')) × Served r h s' result)

  put_output-shows :
      (text : List ℕ) (s : sys.State)
      → ((text ≡ []) × (put_output sys text s ≡ s))
        ⊎ ((text ≢ []) × (put_output sys text s ≡ sys.print stdout text s))
  put_output-shows [] s = inl (refl, refl)
  put_output-shows (c ∷ cs) s = inr (λ e. cc, refl)

  exit_code-exits :
      (status : ℕ)
      → ((status ≡ mcuco_status_ok)
          × (mcuco_strerror status ++ codes "\n" ≡ codes "Success\n")
          × (exit_code status ≡ 0))
        ⊎ ((status ≢ mcuco_status_ok) × (exit_code status ≡ 1))
  unfolding mcuco_strerror
  exit_code-exits status = elim (Bool-cases (status == mcuco_status_ok)) [
    | inl t ↦ inl (ground arith, rw t refl, rw t refl)
    | inr t ↦ inr (ground arith, rw t refl)
  ]

  serve-Served :
      (r : Request) (h : Handle) (s : sys.State)
      → InRange r
      → IsEnough sys laws fuel s
      → Served r h s (serve sys fuel r (returned h) s)
  serve-Served r h s valid enough =
      let ran = printing-Ran sys.os fuel h.mcu (laws.port h.mcu.fd) r s valid (enough h.mcu.fd) in
      record {
        status = ran.status;
        value = ran.value;
        text = ran.text;
        message = mcuco_strerror ran.status ++ codes "\n";
        code = exit_code ran.status;
        after = ran.after;
        shown = put_output sys ran.text ran.after;
        called = ran.called;
        printed = ran.printed;
        shows = put_output-shows ran.text ran.after;
        exits = elim (exit_code-exits ran.status) [
          | inl good ↦ inl good
          | inr (bad, code) ↦ inr (bad, refl, code)
        ];
        returns =
            >>=-some (printing (call sys.os fuel r (some h.mcu) (some 0)) (print_of r)) _ s
              ran.after (ran.status, ran.text) ran.returns;
      }

  serve-Told :
      (r : Request) (config : Config) (s : sys.State)
      → InRange r
      → IsEnough sys laws fuel s
      → Told r config s (
          (mcuco_open sys fuel (some config.device_path) (pos config.timeout) >>= serve sys fuel r)
            s)
  serve-Told r config s valid enough =
      let path = some config.device_path in
      let e = mcuco_open-OpenEnds sys laws fuel path (pos config.timeout) s enough in
      go e.value e.after e.returns e.holds
    where
      go :
          (value : Call Handle) (after : sys.State)
          → mcuco_open sys fuel (some config.device_path) (pos config.timeout) s
            ≡ some (value, after)
          → Opened sys laws (pos config.timeout) s (value, after)
          → Told r config s (
              (mcuco_open sys fuel (some config.device_path) (pos config.timeout)
                  >>= serve sys fuel r)
                s)
      go (failed errno) after opened holds = inl (
        errno,
        after,
        opened,
        >>=-some (mcuco_open sys fuel (some config.device_path) (pos config.timeout)) _ s after
            (failed errno) opened,
      )
      go (returned h) after opened (is_fd, timeout, view, conf, fewer) = inr (
        h,
        after,
        opened,
        subst (Served r h after)
            (sym (
              >>=-some (mcuco_open sys fuel (some config.device_path) (pos config.timeout)) _ s
                after (returned h) opened))
            (serve-Served r h after valid (λ d. omega (arith, enough d, fewer d))),
      )

  -- The words of a request of the protocol, a duty in whole percents, after options that are read
  -- and ask neither for help nor for the version, and with fuel for a frame and for all that any
  -- port can still deliver: the tool opens the device with the deadline of the options. If it gets no
  -- handle, it says so on the standard error and ends with 1. Otherwise it makes the request's call
  -- of the library and closes the handle. After a success it has shown the value on the standard
  -- output if there is one, a level by its name and a number in decimal, has written "Success" on
  -- the standard error, and ends with 0; after an error it has shown no value, has written the
  -- message of the status, and ends with 1.
  pub main-words_of :
      (getopt : Getopt sys.State) (build : Build) (r : Request) (argv argv' : List Word) (index : ℤ)
      (config : Config) (s s1 : sys.State)
      → InRange r
      → IsWhole r
      → IsEnough sys laws fuel s1
      → parse_config sys getopt fuel argv s ≡ some ((index, argv', config), s1)
      → is_nonpos index ≡ false
      → config.help ≡ false
      → config.version ≡ false
      → words_from (length argv) index argv' ≡ words_of r
      → Told r config s1 (main sys getopt build fuel argv s)
  main-words_of getopt build r argv argv' index config s s1 valid whole enough parsed positive
        no_help no_version words =
      subst (Told r config s1)
        (sym (
          main-serve sys fuel getopt build r argv argv' index config s s1 valid whole parsed
            positive no_help no_version words))
        (serve-Told r config s1 valid enough)
