-- ===== src/Cli/Options.antt =====
-- `parse_timeout` and `parse_config` of cli/main.c. `getopt_long`, with the options of
-- `parse_config`, is a parameter: it may reorder the words of the command line and print a message;
-- `optarg` and `optind` are read after it.
pub mod Timeout
pub mod Loop
use mcu_co_sdk.Common.{
  ℕ, zero, suc, ◌-◌, ◌*◌, ◌^◌, ◌≡◌, ◌<◌, ◌≤◌, List, [], ◌∷◌, ◌++◌, Option, none, some, Bool, true,
  false, not, ◌&&◌, ◌||◌, ltb, ◌==◌, ◌!=◌, if◌then◌else◌, length, u16,
}
use mcu_co_sdk.Common.Int.{ℤ, pos, negsuc, is_neg, eq_ℤ}
use mcu_co_sdk.Os.{M}
use mcu_co_sdk.System.{stderr, System}
use mcu_co_sdk.System.Laws.{Quiet, Laws}
use mcu_co_sdk.Cli.Text.{
  codes, strtoul, skip_spaces, take_sign, take_digits, is_end, ulong_max, decimal,
}
use mcu_co_sdk.Cli.Words.{Word}
use mcu_co_sdk.Cli.Help.{timeout_min_ms, timeout_max_ms}

-- `errno` after `errno = 0` and `strtoul`: `ERANGE`, here as `true`, for digits that are out of the
-- range of `unsigned long`.
abbrev pub strtoul_errno : Word → Bool
strtoul_errno word = ltb ulong_max (take_digits 0 (take_sign (skip_spaces word)).1).0

-- `*timeout_ms`, or `none` for -1.
unfoldable pub parse_timeout : Word → Option ℕ
parse_timeout word =
    let (value, end) = strtoul word in
    if strtoul_errno word
      || length end == length word
      || not (is_end end)
      || ltb value timeout_min_ms
      || ltb timeout_max_ms value
    then none
    else some (u16 value)

-- The message for a timeout that is not accepted.
abbrev pub bad_timeout : Word → List ℕ
bad_timeout word =
    codes "mcu-co-cli: bad timeout '"
    ++ word
    ++ codes "' ("
    ++ decimal timeout_min_ms
    ++ codes "-"
    ++ decimal timeout_max_ms
    ++ codes " ms)\n"

-- `config_t`
pub record Config : Type 0 where
  pub device_path : List ℕ
  pub timeout : ℕ
  pub help : Bool
  pub version : Bool

abbrev pub default_config : Config
default_config = record {
  device_path = codes "/dev/ttyACM0";
  timeout = 1000;
  help = false;
  version = false;
}

pub record Getopt (State : Type 0) : Type 0 where
  -- The value, and the words as they are left.
  pub getopt_long : List Word → State → ℤ × List Word × State
  pub optarg : State → Word
  pub optind : State → ℤ

module _ (sys : System) (getopt : Getopt sys.State) where
  open sys use {State}

  -- The body of the `switch`: the configuration, or `none` for `return -1`.
  unfoldable pub handle_option : ℤ → Config → State → Option Config × State
  handle_option optc config s =
      let word = getopt.optarg s in
      if eq_ℤ optc (pos b'd')
      then (some (record config { device_path = word }), s)
      else if eq_ℤ optc (pos b't')
      then elim (parse_timeout word) [
        | none ↦ (none, sys.print stderr (bad_timeout word) s)
        | some timeout_ms ↦ (some (record config { timeout = timeout_ms }), s)
      ]
      else if eq_ℤ optc (pos b'h')
      then (some (record config { help = true }), s)
      else if eq_ℤ optc (pos b'V')
      then (some (record config { version = true }), s)
      else (none, s)

  -- The loop: the index of the first word that is no option or -1, the words and the configuration
  -- as they are left.
  unfoldable pub parse_options : ℕ → List Word → Config → M State (ℤ × List Word × Config)
  parse_options zero argv config s = none
  parse_options (suc rounds) argv config s =
      let (optc, argv', s1) = getopt.getopt_long argv s in
      let (outcome, s2) = handle_option optc config s1 in
      let next = elim outcome as (λ _. Option ((ℤ × List Word × Config) × State)) [
        | none ↦ some ((negsuc 0, argv', config), s2)
        | some config' ↦ parse_options rounds argv' config' s2
      ] in
      if is_neg optc then some ((getopt.optind s1, argv', config), s1) else next

  unfoldable pub parse_config : ℕ → List Word → M State (ℤ × List Word × Config)
  parse_config fuel argv = parse_options fuel argv default_config

-- What is documented of `getopt_long`: it leaves descriptors, memory and terminals alone, and
-- `remaining` bounds the options that are still to come.
pub record GetoptLaws (sys : System) (laws : Laws sys) (getopt : Getopt sys.State) : Type 0 where
  pub remaining : List Word → sys.State → ℕ
  pub getopt_quiet :
      (argv : List Word) (s : sys.State)
      → Quiet laws.view (λ fd. (laws.port fd).supply) s (getopt.getopt_long argv s).2
  pub getopt_remaining :
      (argv : List Word) (s : sys.State)
      → is_neg (getopt.getopt_long argv s).0 ≡ false
      → remaining (getopt.getopt_long argv s).1 (getopt.getopt_long argv s).2 < remaining argv s
