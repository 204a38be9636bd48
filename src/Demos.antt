-- ===== src/Demos.antt =====
-- examples/: the four demo programs. What their files have in common in the same words, and what
-- they call besides the library: signals, waiting and `perror`, as a parameter.
pub mod Laws
pub mod Steps
pub mod Closes
pub mod Requests
pub mod Blink
pub mod IrqBind
pub mod Frequency
pub mod Breathe
use mcu_co_sdk.Common.{ℕ, List, [], ◌∷◌, ◌++◌, Option, none, some, Bool, ◌!=◌, if◌then◌else◌}
use mcu_co_sdk.Common.Int.{pos}
use mcu_co_sdk.Os.{Call, failed, returned, M, pure, lift, ◌>>=◌}
use mcu_co_sdk.System.{stderr, System}
use mcu_co_sdk.Status.{mcuco_strerror}
use mcu_co_sdk.Values.{mcuco_status_ok}
use mcu_co_sdk.Mcuco.{mcuco_reset}
use mcu_co_sdk.Mcuco.Handle.{Handle, mcuco_open, mcuco_close}
use mcu_co_sdk.Cli.Text.{codes}

pub record Signals (State : Type 0) : Type 0 where
  -- `SIGINT` and `SIGTERM`, whose handler is `request_stop`.
  pub sigint : ℕ
  pub sigterm : ℕ
  pub sigaction : ℕ → State → State
  -- A read of the flag that `request_stop` sets.
  pub stop_requested : State → Bool × State
  -- In nanoseconds and in seconds.
  pub nanosleep : ℕ → State → State
  pub sleep : ℕ → State → State
  pub pause : State → State
  pub perror : List ℕ → State → State

-- `(argc > 1) ? argv[1] : DEFAULT_DEVICE`
abbrev pub device_path : List (List ℕ) → List ℕ
device_path (program ∷ path ∷ rest) = path
device_path _ = codes "/dev/ttyACM0"

-- `MCUCO_TIMEOUT_DEFAULT_MS`
abbrev pub mcuco_timeout_default_ms : ℕ
mcuco_timeout_default_ms = 1000

module _ (sys : System) (signals : Signals sys.State) where
  open sys use {State}

  unfoldable pub install_signal_handlers : State → State
  install_signal_handlers s = signals.sigaction signals.sigterm (signals.sigaction signals.sigint s)

  abbrev pub print_error : List ℕ → State → State
  print_error text s = sys.print stderr text s

  -- A message with the text for a status.
  abbrev pub report : List ℕ → ℕ → State → State
  report what status s = print_error (what ++ mcuco_strerror status ++ codes "\n") s

  -- The way out on an error: the message, the handle closed, 1 returned.
  abbrev pub give_up : List ℕ → ℕ → Handle → M State ℕ
  give_up what status mcu = lift (λ s. (1, mcuco_close sys (some mcu) (report what status s)))

  -- `mcuco_reset` with the message when it fails, and `mcuco_close`.
  abbrev pub reset_and_close : ℕ → Handle → M State (Unit {0})
  reset_and_close fuel mcu = mcuco_reset sys.os fuel (some mcu.mcu) >>= λ reset_status. lift (λ s.
      let s =
        if reset_status != mcuco_status_ok then report (codes "reset: ") reset_status s else s in
      (tt, mcuco_close sys (some mcu) s))

  -- Opening, and what follows it: `perror` and 1, or the rest of the program.
  abbrev pub with_device : ℕ → List (List ℕ) → (Handle → M State ℕ) → M State ℕ
  with_device fuel argv body =
      mcuco_open sys fuel (some (device_path argv)) (pos mcuco_timeout_default_ms) >>= λ opened.
      elim opened as (λ _. M State ℕ) [
        | failed errno ↦ lift (λ s. (1, signals.perror (codes "mcuco_open") s))
        | returned mcu ↦ body mcu
      ]
