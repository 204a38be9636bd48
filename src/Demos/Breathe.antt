-- ===== src/Demos/Breathe.antt =====
-- examples/pwm_breathe.c. The first argument of a loop is fuel for its rounds.
pub mod Ramp
pub mod Ladder
pub mod Clean
use mcu_co_sdk.Common.{
  ℕ, zero, suc, ◌-◌, ◌%◌, ◌^◌, List, [], ◌++◌, none, some, Bool, true, false, ◌&&◌, ◌||◌, ◌==◌,
  ◌!=◌, not, if◌then◌else◌, u16,
}
use mcu_co_sdk.Common.Int.{ℤ, pos, negsuc, is_neg, eq_ℤ, ◌+ℤ◌, ◌-ℤ◌}
use mcu_co_sdk.Values.{mcuco_status_ok, mcuco_status_err_busy, duty_max, pol_active_high, port_a}
use mcu_co_sdk.Os.{M, pure, lift, ◌>>=◌}
use mcu_co_sdk.System.{System}
use mcu_co_sdk.Mcuco.{
  mcuco_pwm_group_cfg, mcuco_pwm_group_release, mcuco_pwm_channel_cfg, mcuco_pwm_channel_set,
}
use mcu_co_sdk.Mcuco.Handle.{Handle}
use mcu_co_sdk.Cli.Text.{codes, decimal}
use mcu_co_sdk.Cli.Main.{exit_code}
use mcu_co_sdk.Demos.{
  Signals, device_path, install_signal_handlers, print_error, report, give_up, reset_and_close,
  with_device,
}

abbrev pub pwm_hz : ℕ
pwm_hz = 1000

abbrev pub led_group : ℕ
led_group = 0

abbrev pub led_pin : ℕ
led_pin = 5

abbrev pub duty_step : ℕ
duty_step = 20

-- `STEP_NS`
abbrev pub step_ns : ℕ
step_ns = 20000000

-- `(uint16_t)duty` of an `int`
abbrev pub u16_of : ℤ → ℕ
u16_of (pos n) = u16 n
u16_of (negsuc n) = 2 ^ 16 - 1 - n % 2 ^ 16

-- `a < b`
abbrev pub lt_ℤ : ℤ → ℤ → Bool
lt_ℤ a b = is_neg (a -ℤ b)

-- `duty += step`, clamped to `to`.
abbrev pub next_duty : ℤ → ℤ → ℤ → ℤ
next_duty step to duty =
    let duty = duty +ℤ step in
    if (lt_ℤ (pos 0) step && lt_ℤ to duty) || (lt_ℤ step (pos 0) && lt_ℤ duty to) then to else duty

module _ (sys : System) (signals : Signals sys.State) (fuel : ℕ) where
  open sys use {State}

  unfoldable pub claim_group : Handle → M State ℕ
  claim_group mcu = mcuco_pwm_group_cfg sys.os fuel (some mcu.mcu) pwm_hz led_group >>= λ status.
      if status == mcuco_status_err_busy
      then (lift (λ s. (
        tt,
        print_error sys signals
            (codes "group " ++ decimal led_group ++ codes " was already running, taking it over\n")
            s,
      ))
          >>= λ u. mcuco_pwm_group_release sys.os fuel (some mcu.mcu) led_group >>= λ status.
              if status != mcuco_status_ok
              then pure status
              else mcuco_pwm_group_cfg sys.os fuel (some mcu.mcu) pwm_hz led_group)
      else pure status

  unfoldable pub wait_a_step : State → Unit {0} × State
  wait_a_step s = (tt, signals.nanosleep step_ns s)

  -- The loop of `ramp`.
  unfoldable pub ramp_loop : ℕ → Handle → ℤ → ℤ → ℤ → M State ℕ
  ramp_loop zero mcu step to duty s = none
  ramp_loop (suc rounds) mcu step to duty s =
      (lift signals.stop_requested >>= λ stop.
      if stop
      then pure mcuco_status_ok
      else (mcuco_pwm_channel_set sys.os fuel (some mcu.mcu) (u16_of duty) port_a led_pin
          >>= λ status.
              if status != mcuco_status_ok
              then pure status
              else if eq_ℤ duty to
              then pure mcuco_status_ok
              else (lift wait_a_step >>= λ u.
                  ramp_loop rounds mcu step to (next_duty step to duty))))
        s

  unfoldable pub ramp : ℕ → Handle → ℤ → ℤ → M State ℕ
  ramp rounds mcu from to =
      ramp_loop rounds mcu (if lt_ℤ from to then pos duty_step else negsuc (duty_step - 1)) to from

  -- The loop of `main`; it gives the last status.
  unfoldable pub breathe_loop : ℕ → ℕ → Handle → ℕ → M State ℕ
  breathe_loop zero steps mcu status s = none
  breathe_loop (suc rounds) steps mcu status s =
      (lift signals.stop_requested >>= λ stop.
      if not stop && status == mcuco_status_ok
      then (ramp steps mcu (pos 0) (pos duty_max) >>= λ status.
          if status != mcuco_status_ok
          then pure status
          else (ramp steps mcu (pos duty_max) (pos 0) >>= λ status.
              breathe_loop rounds steps mcu status))
      else pure status)
        s

  -- After the loop.
  abbrev pub finish : Handle → ℕ → M State ℕ
  finish mcu status =
      lift (λ s. (
        tt,
        if status != mcuco_status_ok
            then report sys signals (codes "pwm channel set: ") status s
            else s,
      ))
      >>= λ u. reset_and_close sys signals fuel mcu >>= λ u. pure (exit_code status)

  -- From the open handle on.
  unfoldable pub breathe : ℕ → ℕ → Handle → M State ℕ
  breathe rounds steps mcu = claim_group mcu >>= λ status.
      if status != mcuco_status_ok
      then give_up sys signals (codes "pwm group cfg: ") status mcu
      else (mcuco_pwm_channel_cfg sys.os fuel (some mcu.mcu) pol_active_high port_a led_pin
          >>= λ status.
              if status != mcuco_status_ok
              then give_up sys signals (codes "pwm channel cfg: ") status mcu
              else (lift (λ s. (
                tt,
                print_error sys signals
                    (codes "breathing LD2 at " ++ decimal pwm_hz ++ codes " Hz. Ctrl-C to exit.\n")
                    s,
              ))
                  >>= λ u. breathe_loop rounds steps mcu status >>= finish mcu))

  unfoldable pub breathe_main : ℕ → ℕ → List (List ℕ) → M State ℕ
  breathe_main rounds steps argv s =
      let s = install_signal_handlers sys signals s in
      let s = print_error sys signals (codes "opening " ++ device_path argv ++ codes "\n") s in
      with_device sys signals fuel argv (breathe rounds steps) s
