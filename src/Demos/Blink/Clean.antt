-- ===== src/Demos/Blink/Clean.antt =====
-- The program that blinks ends, once the user stops it, and has closed and freed what it opened and
-- allocated.
use mcu_co_sdk.Common.{ℕ, zero, suc, ◌≤◌, ◌<◌, ◌≡◌, List, [], ◌!=◌, some, false, arith}
use mcu_co_sdk.Common.Int.{is_neg}
use mcu_co_sdk.Values.{mcuco_status_ok, dir_output, level_low, level_high, port_a}
use mcu_co_sdk.Protocol.Commands.Request.{gpio_set}
use mcu_co_sdk.Os.{M}
use mcu_co_sdk.Os.Ends.{Ends}
use mcu_co_sdk.System.{stderr, System}
use mcu_co_sdk.System.Laws.{Laws}
use mcu_co_sdk.Uart.Opened.{Calm-trans}
use mcu_co_sdk.Mcuco.{mcuco_gpio_set}
use mcu_co_sdk.Mcuco.Calls.{call}
use mcu_co_sdk.Mcuco.Handle.{Handle}
use mcu_co_sdk.Mcuco.Steady.{IsEnough}
use mcu_co_sdk.Cli.Main.{exit_code}
use mcu_co_sdk.Demos.{Signals}
use mcu_co_sdk.Demos.Laws.{SignalLaws}
use mcu_co_sdk.Demos.Steps.{
  Runs, Runs-pure, Runs->>=, Runs-if, Runs-stop, Runs-call, Runs-no_result,
}
use mcu_co_sdk.Cli.Main.Leaks.{exit_code_le}
use mcu_co_sdk.Demos.Requests.{cfg-Runs, Runs-print, print-Lasts}
use mcu_co_sdk.Demos.Closes.{
  Clean, Closes, Closes->>=, Closes-if, Closes-give_up, Closes-reset, with_device-Ends,
  install-Calm,
}
use mcu_co_sdk.Demos.Blink.{show_level, blink_loop, blink, blink_main}

module _ (sys : System) (laws : Laws sys) (signals : Signals sys.State)
    (sl : SignalLaws sys laws signals) (fuel : ℕ) where
  set-Runs :
      {n : ℕ} (h : Handle) (level : ℕ)
      → level ≤ 1
      → Runs sys laws signals sl fuel n (mcuco_gpio_set sys.os fuel (some h.mcu) level port_a 5)
  unfolding call
  set-Runs h level l =
      Runs-no_result sys laws signals sl fuel
        (mcuco_gpio_set sys.os fuel (some h.mcu) level port_a 5)
        (Runs-call sys laws signals sl fuel h (gpio_set level port_a 5) 0
          (l, (omega arith, omega arith)))

  show_level-Runs :
      {n : ℕ} (h : Handle) (level : ℕ) (rest : ℕ → M sys.State ℕ)
      → level ≤ 1
      → ((status : ℕ) → Runs sys laws signals sl fuel n (rest status))
      → Runs sys laws signals sl fuel n (show_level sys signals fuel h level rest)
  show_level-Runs h level rest l next =
      Runs->>= sys laws signals sl fuel (set-Runs h level l) (λ status.
        Runs-if sys laws signals sl fuel (status != mcuco_status_ok)
          (Runs-print sys laws signals sl fuel _ (λ s. print-Lasts sys laws signals sl fuel _ s)
            status)
          (Runs->>= sys laws signals sl fuel
            (Runs-print sys laws signals sl fuel _
              (λ s. (sl.sleep_quiet 1 s, sl.sleep_patience 1 s)) tt)
            (λ u. next status)))

  blink_loop-Runs :
      (rounds : ℕ) (h : Handle) (status : ℕ)
      → Runs sys laws signals sl fuel rounds (blink_loop sys signals fuel rounds h status)
  unfolding blink_loop
  blink_loop-Runs zero h status = record { at = λ s enough p. absurd (omega arith) }
  blink_loop-Runs (suc rounds) h status =
      Runs-stop sys laws signals sl fuel (Runs-pure sys laws signals sl fuel status) (
        show_level-Runs h level_high _ (omega arith) (λ status.
          show_level-Runs h level_low _ (omega arith) (λ status. blink_loop-Runs rounds h status)))

  blink-Closes :
      (rounds : ℕ) (h : Handle)
      → is_neg h.mcu.fd ≡ false
      → Closes sys laws signals sl fuel rounds h (blink sys signals fuel rounds h)
  unfolding blink
  blink-Closes rounds h is_fd =
      Closes->>= sys laws signals sl fuel
        (cfg-Runs sys laws signals sl fuel h dir_output port_a 5 (omega arith) (omega arith)
          (omega arith))
        (λ status.
          Closes-if sys laws signals sl fuel (status != mcuco_status_ok)
            (Closes-give_up sys laws signals sl fuel [] status h is_fd)
            (Closes->>= sys laws signals sl fuel (blink_loop-Runs rounds h status) (λ status.
              Closes-reset sys laws signals sl fuel h (exit_code status) is_fd
                (exit_code_le status))))

  -- With a user who stops it at some time, and fuel, the program that blinks ends, with the exit
  -- code 0 or 1. By then it has closed every descriptor that it opened and freed every handle.
  pub blink_main-Ends :
      (rounds : ℕ) (argv : List (List ℕ)) (s : sys.State)
      → sl.limit < rounds
      → IsEnough sys laws fuel s
      → Ends
          (Clean sys laws signals sl fuel (laws.view s))
          (blink_main sys signals fuel rounds argv s)
  unfolding blink_main
  blink_main-Ends rounds argv s patient enough =
      with_device-Ends sys laws signals sl fuel rounds argv (blink sys signals fuel rounds) _ s
        patient enough
        (Calm-trans sys laws (install-Calm sys laws signals sl fuel s)
          (laws.print_quiet stderr _ _))
        (blink-Closes rounds)
