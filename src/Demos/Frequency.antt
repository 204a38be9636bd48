-- ===== src/Demos/Frequency.antt =====
-- examples/pwm_frequency.c
pub mod Clean
use mcu_co_sdk.Common.{
  ℕ, ◌-◌, List, [], ◌++◌, Option, none, some, Bool, true, false, ◌&&◌, ◌!=◌, if◌then◌else◌, length,
  replicate,
}
use mcu_co_sdk.Common.Int.{ℤ, pos, neg_part, pos_part, is_neg, ◌-ℤ◌}
use mcu_co_sdk.Values.{mcuco_status_ok, mcuco_status_err_busy}
use mcu_co_sdk.Os.{M, pure, lift, ◌>>=◌}
use mcu_co_sdk.System.{stdout, System}
use mcu_co_sdk.Mcuco.{mcuco_pwm_group_cfg, mcuco_pwm_group_get}
use mcu_co_sdk.Mcuco.Handle.{Handle}
use mcu_co_sdk.Cli.Text.{codes, decimal}
use mcu_co_sdk.Cli.Table.{print_value}
use mcu_co_sdk.Demos.{
  Signals, device_path, install_signal_handlers, print_error, report, reset_and_close, with_device,
}

-- `%7u` and `%+ld`
abbrev decimal7 : ℕ → List ℕ
decimal7 n = replicate (7 - length (decimal n)) b' ' ++ decimal n

abbrev signed_decimal : ℤ → List ℕ
signed_decimal a =
    if is_neg a then codes "-" ++ decimal (neg_part a) else codes "+" ++ decimal (pos_part a)

-- The line for a group.
pub group_line : ℕ → ℕ → ℕ → List ℕ
group_line group requested_hz achieved_hz =
    codes "group "
    ++ decimal group
    ++ codes ": requested "
    ++ decimal7 requested_hz
    ++ codes " Hz -> achieved "
    ++ decimal7 achieved_hz
    ++ codes " Hz  ("
    ++ signed_decimal (pos achieved_hz -ℤ pos requested_hz)
    ++ codes ")\n"

-- `group %u cfg: ` and `group %u get: `
abbrev pub group_prefix : ℕ → List ℕ → List ℕ
group_prefix group what = codes "group " ++ decimal group ++ what

module _ (sys : System) (signals : Signals sys.State) (fuel : ℕ) where
  open sys use {State}

  unfoldable pub report_group : Handle → ℕ → ℕ → M State (Unit {0})
  report_group mcu group requested_hz =
      mcuco_pwm_group_cfg sys.os fuel (some mcu.mcu) requested_hz group >>= λ status.
      if status != mcuco_status_ok && status != mcuco_status_err_busy
      then lift (λ s. (tt, report sys signals (group_prefix group (codes " cfg: ")) status s))
      else (mcuco_pwm_group_get sys.os fuel (some mcu.mcu) group (some 0)
          >>= λ (status, achieved_hz).
              if status != mcuco_status_ok
              then lift
                  (λ s. (tt, report sys signals (group_prefix group (codes " get: ")) status s))
              else lift (λ s.
                (tt, sys.print stdout (print_value achieved_hz (group_line group requested_hz)) s)))

  -- `if (!stop_requested) { report_group(...); }`
  abbrev pub report_unless_stopped : Handle → ℕ → ℕ → M State (Unit {0})
  report_unless_stopped mcu group requested_hz = lift signals.stop_requested >>= λ stop.
      if stop then pure tt else report_group mcu group requested_hz

  -- From the open handle on.
  unfoldable pub frequency : Handle → M State ℕ
  frequency mcu = report_group mcu 0 1000 >>= λ u. report_unless_stopped mcu 1 60000 >>= λ u.
      report_unless_stopped mcu 2 7777 >>= λ u. reset_and_close sys signals fuel mcu >>= λ u. pure 0

  unfoldable pub frequency_main : List (List ℕ) → M State ℕ
  frequency_main argv s =
      let s = install_signal_handlers sys signals s in
      let s = print_error sys signals (codes "opening " ++ device_path argv ++ codes "\n") s in
      with_device sys signals fuel argv frequency s
