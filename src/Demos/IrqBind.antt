-- ===== src/Demos/IrqBind.antt =====
-- examples/irq_bind.c. The first argument of the loop is fuel for its rounds.
pub mod Clean
use mcu_co_sdk.Common.{ℕ, zero, suc, List, [], none, some, Bool, true, false, ◌!=◌, if◌then◌else◌}
use mcu_co_sdk.Values.{
  mcuco_status_ok, dir_input, dir_output, edge_both, action_toggle, port_a, port_c,
}
use mcu_co_sdk.Os.{M, pure, lift, ◌>>=◌}
use mcu_co_sdk.System.{System}
use mcu_co_sdk.Mcuco.{mcuco_reset, mcuco_gpio_cfg, mcuco_gpio_irq_cfg, mcuco_gpio_irq_bind}
use mcu_co_sdk.Mcuco.Handle.{Handle, mcuco_close}
use mcu_co_sdk.Cli.Text.{codes}
use mcu_co_sdk.Demos.{Signals, install_signal_handlers, print_error, give_up, with_device}

module _ (sys : System) (signals : Signals sys.State) (fuel : ℕ) where
  open sys use {State}

  -- A call, and what follows it on success; on an error the program ends.
  abbrev pub or_give_up : Handle → M State ℕ → M State ℕ → M State ℕ
  or_give_up mcu request rest = request >>= λ status.
      if status != mcuco_status_ok then give_up sys signals [] status mcu else rest

  unfoldable pub pause_loop : ℕ → M State (Unit {0})
  pause_loop zero s = none
  pause_loop (suc rounds) s =
      (lift signals.stop_requested >>= λ stop.
      if stop then pure tt else (lift (λ s. (tt, signals.pause s)) >>= λ u. pause_loop rounds))
        s

  -- From the open handle on.
  unfoldable pub irq_bind_session : ℕ → Handle → M State ℕ
  irq_bind_session rounds mcu =
      or_give_up mcu (mcuco_gpio_cfg sys.os fuel (some mcu.mcu) dir_input port_c 13) (
        or_give_up mcu (mcuco_gpio_cfg sys.os fuel (some mcu.mcu) dir_output port_a 5) (
          or_give_up mcu (mcuco_gpio_irq_cfg sys.os fuel (some mcu.mcu) edge_both port_c 13) (
            or_give_up mcu
              (mcuco_gpio_irq_bind sys.os fuel (some mcu.mcu) edge_both port_c 13 action_toggle
                port_a 5)
              (lift (λ s.
                  (tt, print_error sys signals (codes "bound - press B1. Ctrl-C to exit.\n") s))
                >>= λ u. pause_loop rounds >>= λ u.
                    mcuco_reset sys.os fuel (some mcu.mcu) >>= λ reset_status.
                    lift (λ s. (0, mcuco_close sys (some mcu) s))))))

  unfoldable pub irq_bind_main : ℕ → List (List ℕ) → M State ℕ
  irq_bind_main rounds argv s =
      with_device sys signals fuel argv (irq_bind_session rounds)
        (install_signal_handlers sys signals s)
