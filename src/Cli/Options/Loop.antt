-- ===== src/Cli/Options/Loop.antt =====
-- The loop over the options ends, and touches nothing but the words, the output and the
-- configuration.
use mcu_co_sdk.Common.{
  ℕ, zero, suc, ◌≤◌, ◌<◌, ◌≡◌, refl, sym, ap, List, Option, none, some, Bool, true, false,
  Bool-cases, inl, inr, if◌then◌else◌, arith,
}
use mathlib.Core.Path.{subst}
use mcu_co_sdk.Common.Int.{ℤ, pos, eq_ℤ, is_neg, negsuc}
use mcu_co_sdk.Os.Ends.{Ends, Ends-some, Ends-mono}
use mcu_co_sdk.System.{stderr, System}
use mcu_co_sdk.System.Laws.{Laws}
use mcu_co_sdk.Cli.Words.{Word}
use mcu_co_sdk.Cli.Help.{timeout_min_ms, timeout_max_ms}
use mcu_co_sdk.Cli.Options.{
  Config, default_config, Getopt, GetoptLaws, bad_timeout, parse_timeout, handle_option,
  parse_options, parse_config,
}
use mcu_co_sdk.Cli.Options.Timeout.{IsTimeout, parse_timeout-IsTimeout}
use mcu_co_sdk.Uart.Opened.{Calm, Calm-refl, Calm-trans}

-- The deadline of a configuration.
abbrev pub HasTimeout : Config → Type 0
HasTimeout config = (timeout_min_ms ≤ config.timeout) × (config.timeout ≤ timeout_max_ms)

module _ (sys : System) (laws : Laws sys) (getopt : Getopt sys.State)
    (gl : GetoptLaws sys laws getopt) where
  -- What the body of the `switch` leaves.
  abbrev Handled : sys.State → Option Config × sys.State → Type 0
  Handled s (none, s') = Calm sys laws s s'
  Handled s (some config, s') = (s' ≡ s) × HasTimeout config

  Handled-if :
      (s : sys.State) (x y : Option Config × sys.State) (t : Bool)
      → Handled s x
      → Handled s y
      → Handled s (if t then x else y)
  Handled-if s x y true p q = p
  Handled-if s x y false p q = q

  handle_option-Handled :
      (optc : ℤ) (config : Config) (s : sys.State)
      → HasTimeout config
      → Handled s (handle_option sys getopt optc config s)
  unfolding handle_option
  handle_option-Handled optc config s h =
      Handled-if s _ _ (eq_ℤ optc (pos b'd')) (refl, h)
        (Handled-if s _ _ (eq_ℤ optc (pos b't'))
          (timeout _ (parse_timeout word) (parse_timeout-IsTimeout word))
          (Handled-if s _ _ (eq_ℤ optc (pos b'h')) (refl, h)
            (Handled-if s _ _ (eq_ℤ optc (pos b'V')) (refl, h) (Calm-refl sys laws s))))
    where
      word : Word
      word = getopt.optarg s

      timeout :
          (value : ℕ) (r : Option ℕ)
          → IsTimeout r value
          → Handled s (elim r [
            | none ↦ (none, sys.print stderr (bad_timeout word) s)
            | some timeout_ms ↦ (some (record config { timeout = timeout_ms }), s)
          ])
      timeout value none b = laws.print_quiet stderr (bad_timeout word) s
      timeout value (some n) b = (refl, (b.1, b.2))

  -- What the loop leaves.
  abbrev pub Parsed : sys.State → ℤ × List Word × Config → sys.State → Type 0
  Parsed s (index, argv, config) s' = Calm sys laws s s' × HasTimeout config

  parse_options-Ends :
      (rounds : ℕ) (argv : List Word) (config : Config) (s : sys.State)
      → HasTimeout config
      → gl.remaining argv s < rounds
      → Ends (Parsed s) (parse_options sys getopt rounds argv config s)
  unfolding parse_options
  parse_options-Ends zero argv config s h enough = absurd (omega arith)
  parse_options-Ends (suc rounds) argv config s h enough =
      let next = getopt.getopt_long argv s in
      let calm = gl.getopt_quiet argv s in
      elim (Bool-cases (is_neg next.0)) [
        | inl last ↦
            rw last (Ends-some (Parsed s) (getopt.optind next.2, next.1, config) next.2 (calm, h))
        | inr more ↦ rw more (
            let handled = handle_option-Handled next.0 config next.2 h in
            go next.2 calm (gl.getopt_remaining argv s more)
              (handle_option sys getopt next.0 config next.2) handled
              (λ config' s2 h2 e. parse_options-Ends rounds next.1 config' s2 h2 e))
      ]
    where
      argv' : List Word
      argv' = (getopt.getopt_long argv s).1

      go :
          (s1 : sys.State)
          → Calm sys laws s s1
          → gl.remaining argv' s1 < gl.remaining argv s
          → (o : Option Config × sys.State) → Handled s1 o
          → ((config' : Config) (s2 : sys.State)
              → HasTimeout config'
              → gl.remaining argv' s2 < rounds
              → Ends (Parsed s2) (parse_options sys getopt rounds argv' config' s2))
          → Ends (Parsed s) (elim o.0 as (λ _. Option ((ℤ × List Word × Config) × sys.State)) [
            | none ↦ some ((negsuc 0, argv', config), o.1)
            | some config' ↦ parse_options sys getopt rounds argv' config' o.1
          ])
      go s1 calm fewer (none, s2) handled rest =
          Ends-some (Parsed s) (negsuc 0, argv', config) s2 (Calm-trans sys laws calm handled, h)
      go s1 calm fewer (some config', s2) handled rest =
          let same = ap (λ t. gl.remaining argv' t) handled.0 in
          Ends-mono (rest config' s2 handled.1 (omega arith)) (λ v s' p.
            (Calm-trans sys laws (subst (Calm sys laws s) (sym handled.0) calm) p.0, p.1))

  -- With fuel for the options that are to come, the reading of the options ends. Whatever they are,
  -- no descriptor is opened or closed and nothing is allocated or freed, and the timeout that is
  -- left is from 20 to 10000 milliseconds.
  pub parse_config-Ends :
      (fuel : ℕ) (argv : List Word) (s : sys.State)
      → gl.remaining argv s < fuel
      → Ends (Parsed s) (parse_config sys getopt fuel argv s)
  unfolding parse_config
  parse_config-Ends fuel argv s enough =
      parse_options-Ends fuel argv default_config s (omega arith, omega arith) enough
