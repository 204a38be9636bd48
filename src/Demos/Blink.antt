-- ===== src/Demos/Blink.antt =====
-- examples/blink.c. The first argument of a loop is fuel for its rounds.
pub mod Clean
use mcu_co_sdk.Common.{
  ℕ, zero, suc, List, [], ◌++◌, Option, none, some, Bool, true, false, ◌==◌, ◌!=◌, if◌then◌else◌,
}
use mcu_co_sdk.Values.{mcuco_status_ok, dir_output, level_low, level_high, port_a}
use mcu_co_sdk.Os.{M, pure, lift, ◌>>=◌}
use mcu_co_sdk.System.{System}
use mcu_co_sdk.Mcuco.{mcuco_gpio_cfg, mcuco_gpio_set}
use mcu_co_sdk.Mcuco.Handle.{Handle}
use mcu_co_sdk.Cli.Text.{codes}
use mcu_co_sdk.Cli.Main.{exit_code}
use mcu_co_sdk.Demos.{
  Signals, device_path, install_signal_handlers, print_error, report, give_up, reset_and_close,
  with_device,
}

module _ (sys : System) (signals : Signals sys.State) (fuel : ℕ) where
  open sys use {State}

  -- Setting the level and then waiting; `rest` is what follows on success.
  abbrev pub show_level : Handle → ℕ → (ℕ → M State ℕ) → M State ℕ
  show_level mcu level rest = mcuco_gpio_set sys.os fuel (some mcu.mcu) level port_a 5 >>= λ status.
      if status != mcuco_status_ok
      then lift (λ s. (status, report sys signals [] status s))
      else (lift (λ s. (tt, signals.sleep 1 s)) >>= λ u. rest status)

  -- The loop; it gives the last status.
  unfoldable pub blink_loop : ℕ → Handle → ℕ → M State ℕ
  blink_loop zero mcu status s = none
  blink_loop (suc rounds) mcu status s =
      (lift signals.stop_requested >>= λ stop.
      if stop
      then pure status
      else show_level mcu level_high (λ status. show_level mcu level_low (blink_loop rounds mcu)))
        s

  -- From the open handle on.
  unfoldable pub blink : ℕ → Handle → M State ℕ
  blink rounds mcu = mcuco_gpio_cfg sys.os fuel (some mcu.mcu) dir_output port_a 5 >>= λ status.
      if status != mcuco_status_ok
      then give_up sys signals [] status mcu
      else (blink_loop rounds mcu status >>= λ status.
          reset_and_close sys signals fuel mcu >>= λ u. pure (exit_code status))

  unfoldable pub blink_main : ℕ → List (List ℕ) → M State ℕ
  blink_main rounds argv s =
      let s = install_signal_handlers sys signals s in
      let s = print_error sys signals (codes "opening " ++ device_path argv ++ codes "\n") s in
      with_device sys signals fuel argv (blink rounds) s
