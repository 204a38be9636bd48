-- ===== src/Demos/Breathe/Clean.antt =====
-- The program that breathes ends, once the user stops it, and has closed and freed what it opened and
-- allocated.
use mcu_co_sdk.Common.{
  ℕ, zero, suc, ◌<◌, ◌≡◌, List, ◌==◌, ◌!=◌, ◌&&◌, not, if◌then◌else◌, some, Bool, true, false,
  arith,
}
use mcu_co_sdk.Common.Int.{is_neg, pos}
use mcu_co_sdk.Values.{mcuco_status_ok, mcuco_status_err_busy, port_a, duty_max, pol_active_high}
use mcu_co_sdk.Protocol.Commands.Request.{group_cfg, group_release, channel_cfg}
use mcu_co_sdk.Os.{pure, ◌>>=◌}
use mcu_co_sdk.Os.Ends.{Ends}
use mcu_co_sdk.System.{stderr, System}
use mcu_co_sdk.System.Laws.{Laws}
use mcu_co_sdk.Uart.Opened.{Calm-trans}
use mcu_co_sdk.Mcuco.{mcuco_pwm_group_cfg, mcuco_pwm_group_release, mcuco_pwm_channel_cfg}
use mcu_co_sdk.Mcuco.Calls.{call}
use mcu_co_sdk.Mcuco.Handle.{Handle}
use mcu_co_sdk.Mcuco.Steady.{IsEnough}
use mcu_co_sdk.Cli.Main.{exit_code}
use mcu_co_sdk.Cli.Text.{codes}
use mcu_co_sdk.Demos.{Signals}
use mcu_co_sdk.Demos.Laws.{SignalLaws}
use mcu_co_sdk.Demos.Steps.{
  Lasts, Lasts-refl, Runs, Runs-pure, Runs->>=, Runs-if, Runs-read, Runs-call, Runs-no_result,
}
use mcu_co_sdk.Cli.Main.Leaks.{exit_code_le}
use mcu_co_sdk.Demos.Requests.{Runs-print, print-Lasts}
use mcu_co_sdk.Demos.Closes.{
  Clean, Closes, Closes->>=, Closes-if, Closes-give_up, Closes-reset, with_device-Ends,
  install-Calm,
}
use mcu_co_sdk.Demos.Breathe.{
  pwm_hz, led_group, led_pin, claim_group, ramp, breathe_loop, finish, breathe, breathe_main,
}
use mcu_co_sdk.Demos.Breathe.Ramp.{ramp_up-Runs, ramp_down-Runs}

module _ (sys : System) (laws : Laws sys) (signals : Signals sys.State)
    (sl : SignalLaws sys laws signals) (fuel : ℕ) where
  cfg_group-Runs :
      {n : ℕ} (h : Handle)
      → Runs sys laws signals sl fuel n
          (mcuco_pwm_group_cfg sys.os fuel (some h.mcu) pwm_hz led_group)
  unfolding call
  cfg_group-Runs h =
      Runs-no_result sys laws signals sl fuel
        (mcuco_pwm_group_cfg sys.os fuel (some h.mcu) pwm_hz led_group)
        (Runs-call sys laws signals sl fuel h (group_cfg pwm_hz led_group) 0
          (omega arith, omega arith, omega arith))

  release_group-Runs :
      {n : ℕ} (h : Handle)
      → Runs sys laws signals sl fuel n (mcuco_pwm_group_release sys.os fuel (some h.mcu) led_group)
  unfolding call
  release_group-Runs h =
      Runs-no_result sys laws signals sl fuel
        (mcuco_pwm_group_release sys.os fuel (some h.mcu) led_group)
        (Runs-call sys laws signals sl fuel h (group_release led_group) 0 (omega arith))

  cfg_channel-Runs :
      {n : ℕ} (h : Handle)
      → Runs sys laws signals sl fuel n
          (mcuco_pwm_channel_cfg sys.os fuel (some h.mcu) pol_active_high port_a led_pin)
  unfolding call
  cfg_channel-Runs h =
      Runs-no_result sys laws signals sl fuel
        (mcuco_pwm_channel_cfg sys.os fuel (some h.mcu) pol_active_high port_a led_pin)
        (Runs-call sys laws signals sl fuel h (channel_cfg pol_active_high port_a led_pin) 0
          (omega arith, (omega arith, omega arith)))

  claim_group-Runs :
      {n : ℕ} (h : Handle) → Runs sys laws signals sl fuel n (claim_group sys signals fuel h)
  unfolding claim_group
  claim_group-Runs h = Runs->>= sys laws signals sl fuel (cfg_group-Runs h) (λ status.
      Runs-if sys laws signals sl fuel (status == mcuco_status_err_busy)
        (Runs->>= sys laws signals sl fuel
          (Runs-print sys laws signals sl fuel _ (λ s. print-Lasts sys laws signals sl fuel _ s) tt)
          (λ u. Runs->>= sys laws signals sl fuel (release_group-Runs h) (λ status.
            Runs-if sys laws signals sl fuel (status != mcuco_status_ok)
              (Runs-pure sys laws signals sl fuel status) (cfg_group-Runs h))))
        (Runs-pure sys laws signals sl fuel status))

  up-Runs :
      {n : ℕ} (h : Handle) (steps : ℕ)
      → 50 < steps
      → Runs sys laws signals sl fuel n (ramp sys signals fuel steps h (pos 0) (pos duty_max))
  unfolding ramp
  up-Runs h steps enough =
      ramp_up-Runs sys laws signals sl fuel steps h 0 1000 (omega arith) (omega arith) (omega arith)

  down-Runs :
      {n : ℕ} (h : Handle) (steps : ℕ)
      → 50 < steps
      → Runs sys laws signals sl fuel n (ramp sys signals fuel steps h (pos duty_max) (pos 0))
  unfolding ramp
  down-Runs h steps enough =
      ramp_down-Runs sys laws signals sl fuel steps h 1000 0 (omega arith) (omega arith)
        (omega arith)

  breathe_loop-Runs :
      (rounds steps : ℕ) (h : Handle) (status : ℕ)
      → 50 < steps
      → Runs sys laws signals sl fuel rounds (breathe_loop sys signals fuel rounds steps h status)
  unfolding breathe_loop
  breathe_loop-Runs zero steps h status enough = record { at = λ s enough p. absurd (omega arith) }
  breathe_loop-Runs (suc rounds) steps h status enough =
      Runs-read sys laws signals sl fuel
        (λ stop.
          if not stop && status == mcuco_status_ok
          then (ramp sys signals fuel steps h (pos 0) (pos duty_max) >>= λ status.
              if status != mcuco_status_ok
              then pure status
              else (ramp sys signals fuel steps h (pos duty_max) (pos 0) >>= λ status.
                  breathe_loop sys signals fuel rounds steps h status))
          else pure status)
        (Runs-pure sys laws signals sl fuel status)
        (Runs-if sys laws signals sl fuel (status == mcuco_status_ok)
          (Runs->>= sys laws signals sl fuel (up-Runs h steps enough) (λ status.
            Runs-if sys laws signals sl fuel (status != mcuco_status_ok)
              (Runs-pure sys laws signals sl fuel status)
              (Runs->>= sys laws signals sl fuel (down-Runs h steps enough)
                (λ status. breathe_loop-Runs rounds steps h status enough))))
          (Runs-pure sys laws signals sl fuel status))

  finish-Closes :
      {n : ℕ} (h : Handle) (status : ℕ)
      → is_neg h.mcu.fd ≡ false
      → Closes sys laws signals sl fuel n h (finish sys signals fuel h status)
  finish-Closes h status is_fd =
      Closes->>= sys laws signals sl fuel
        (Runs-print sys laws signals sl fuel _ (λ s. maybe (status != mcuco_status_ok) _ s) tt)
        (λ u.
          Closes-reset sys laws signals sl fuel h (exit_code status) is_fd (exit_code_le status))
    where
      maybe :
          (t : Bool) (text : List ℕ) (s : sys.State)
          → Lasts sys laws signals sl s (if t then sys.print stderr text s else s)
      maybe true text s = print-Lasts sys laws signals sl fuel _ s
      maybe false text s = Lasts-refl sys laws signals sl s

  breathe-Closes :
      (rounds steps : ℕ) (h : Handle)
      → 50 < steps
      → is_neg h.mcu.fd ≡ false
      → Closes sys laws signals sl fuel rounds h (breathe sys signals fuel rounds steps h)
  unfolding breathe
  breathe-Closes rounds steps h enough is_fd =
      Closes->>= sys laws signals sl fuel (claim_group-Runs h) (λ status.
        Closes-if sys laws signals sl fuel (status != mcuco_status_ok)
          (Closes-give_up sys laws signals sl fuel (codes "pwm group cfg: ") status h is_fd)
          (Closes->>= sys laws signals sl fuel (cfg_channel-Runs h) (λ status.
            Closes-if sys laws signals sl fuel (status != mcuco_status_ok)
              (Closes-give_up sys laws signals sl fuel (codes "pwm channel cfg: ") status h is_fd)
              (Closes->>= sys laws signals sl fuel
                (Runs-print sys laws signals sl fuel _
                  (λ s. print-Lasts sys laws signals sl fuel _ s) tt)
                (λ u.
                  Closes->>= sys laws signals sl fuel
                    (breathe_loop-Runs rounds steps h status enough)
                    (λ status. finish-Closes h status is_fd))))))

  -- With a user who stops it at some time, fuel, and at least 51 rounds for a ramp, the program that
  -- breathes ends, with the exit code 0 or 1. By then it has closed every descriptor that it opened
  -- and freed every handle.
  pub breathe_main-Ends :
      (rounds steps : ℕ) (argv : List (List ℕ)) (s : sys.State)
      → sl.limit < rounds
      → 50 < steps
      → IsEnough sys laws fuel s
      → Ends
          (Clean sys laws signals sl fuel (laws.view s))
          (breathe_main sys signals fuel rounds steps argv s)
  unfolding breathe_main
  breathe_main-Ends rounds steps argv s patient ramps enough =
      with_device-Ends sys laws signals sl fuel rounds argv (breathe sys signals fuel rounds steps)
        _ s patient enough
        (Calm-trans sys laws (install-Calm sys laws signals sl fuel s)
          (laws.print_quiet stderr _ _))
        (λ h is_fd. breathe-Closes rounds steps h ramps is_fd)
