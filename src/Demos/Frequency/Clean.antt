-- ===== src/Demos/Frequency/Clean.antt =====
-- The program that shows the frequencies ends, and has closed and freed what it opened and allocated.
use mcu_co_sdk.Common.{ℕ, zero, suc, ◌≤◌, ◌≡◌, List, ◌!=◌, ◌&&◌, some, false, arith}
use mcu_co_sdk.Common.Int.{is_neg}
use mcu_co_sdk.Values.{mcuco_status_ok, mcuco_status_err_busy}
use mcu_co_sdk.Protocol.Commands.Request.{group_cfg, group_get}
use mcu_co_sdk.Os.{lift}
use mcu_co_sdk.Os.Ends.{Ends}
use mcu_co_sdk.System.{Stream, stdout, stderr, System}
use mcu_co_sdk.System.Laws.{Laws}
use mcu_co_sdk.Uart.Opened.{Calm-trans}
use mcu_co_sdk.Mcuco.{mcuco_pwm_group_cfg, mcuco_pwm_group_get}
use mcu_co_sdk.Mcuco.Calls.{call}
use mcu_co_sdk.Mcuco.Handle.{Handle}
use mcu_co_sdk.Mcuco.Steady.{IsEnough}
use mcu_co_sdk.Demos.{Signals}
use mcu_co_sdk.Demos.Laws.{SignalLaws}
use mcu_co_sdk.Demos.Steps.{
  Runs, Runs-pure, Runs->>=, Runs-if, Runs-stop, Runs-call, Runs-no_result,
}
use mcu_co_sdk.Demos.Requests.{Runs-print}
use mcu_co_sdk.Demos.Closes.{
  Clean, Closes, Closes->>=, Closes-reset, with_device-Ends, install-Calm,
}
use mcu_co_sdk.Demos.Frequency.{report_group, report_unless_stopped, frequency, frequency_main}

module _ (sys : System) (laws : Laws sys) (signals : Signals sys.State)
    (sl : SignalLaws sys laws signals) (fuel : ℕ) where
  group_cfg-Runs :
      {n : ℕ} (h : Handle) (freq_hz group : ℕ)
      → 1 ≤ freq_hz
      → freq_hz ≤ 1000000
      → group ≤ 2
      → Runs sys laws signals sl fuel n (mcuco_pwm_group_cfg sys.os fuel (some h.mcu) freq_hz group)
  unfolding call
  group_cfg-Runs h freq_hz group low high g =
      Runs-no_result sys laws signals sl fuel
        (mcuco_pwm_group_cfg sys.os fuel (some h.mcu) freq_hz group)
        (Runs-call sys laws signals sl fuel h (group_cfg freq_hz group) 0 (low, high, g))

  group_get-Runs :
      {n : ℕ} (h : Handle) (group : ℕ)
      → group ≤ 2
      → Runs sys laws signals sl fuel n
          (mcuco_pwm_group_get sys.os fuel (some h.mcu) group (some 0))
  unfolding call
  group_get-Runs h group g = Runs-call sys laws signals sl fuel h (group_get group) 0 g

  report_group-Runs :
      {n : ℕ} (h : Handle) (group freq_hz : ℕ)
      → group ≤ 2
      → 1 ≤ freq_hz
      → freq_hz ≤ 1000000
      → Runs sys laws signals sl fuel n (report_group sys signals fuel h group freq_hz)
  unfolding report_group
  report_group-Runs h group freq_hz g low high =
      Runs->>= sys laws signals sl fuel (group_cfg-Runs h freq_hz group low high g) (λ status.
        Runs-if sys laws signals sl fuel
          (status != mcuco_status_ok && status != mcuco_status_err_busy) (said stderr _)
          (Runs->>= sys laws signals sl fuel (group_get-Runs h group g) (λ answer.
            Runs-if sys laws signals sl fuel (answer.0 != mcuco_status_ok) (said stderr _)
              (said stdout _))))
    where
      said :
          {n : ℕ} (stream : Stream) (text : List ℕ)
          → Runs sys laws signals sl fuel n (lift (λ s. (tt, sys.print stream text s)))
      said stream text =
          Runs-print sys laws signals sl fuel _
            (λ s. (laws.print_quiet stream text s, sl.print_patience stream text s)) tt

  report_unless_stopped-Runs :
      (n : ℕ) (h : Handle) (group freq_hz : ℕ)
      → group ≤ 2
      → 1 ≤ freq_hz
      → freq_hz ≤ 1000000
      → Runs sys laws signals sl fuel n (report_unless_stopped sys signals fuel h group freq_hz)
  report_unless_stopped-Runs zero h group freq_hz g low high = record {
    at = λ s enough p. absurd (omega arith);
  }
  report_unless_stopped-Runs (suc n) h group freq_hz g low high =
      Runs-stop sys laws signals sl fuel (Runs-pure sys laws signals sl fuel tt)
        (report_group-Runs h group freq_hz g low high)

  frequency-Closes :
      (n : ℕ) (h : Handle)
      → is_neg h.mcu.fd ≡ false
      → Closes sys laws signals sl fuel n h (frequency sys signals fuel h)
  unfolding frequency
  frequency-Closes n h is_fd =
      Closes->>= sys laws signals sl fuel
        (report_group-Runs h 0 1000 (omega arith) (omega arith) (omega arith))
        (λ u.
          Closes->>= sys laws signals sl fuel
            (report_unless_stopped-Runs n h 1 60000 (omega arith) (omega arith) (omega arith))
            (λ u.
              Closes->>= sys laws signals sl fuel
                (report_unless_stopped-Runs n h 2 7777 (omega arith) (omega arith) (omega arith))
                (λ u. Closes-reset sys laws signals sl fuel h 0 is_fd (omega arith))))

  -- With fuel, the program that shows the frequencies ends, with the exit code 0 or 1. By then it has
  -- closed every descriptor that it opened and freed every handle.
  pub frequency_main-Ends :
      (argv : List (List ℕ)) (s : sys.State)
      → IsEnough sys laws fuel s
      → Ends (Clean sys laws signals sl fuel (laws.view s)) (frequency_main sys signals fuel argv s)
  unfolding frequency_main
  frequency_main-Ends argv s enough =
      with_device-Ends sys laws signals sl fuel (suc sl.limit) argv (frequency sys signals fuel) _ s
        (omega arith) enough
        (Calm-trans sys laws (install-Calm sys laws signals sl fuel s)
          (laws.print_quiet stderr _ _))
        (frequency-Closes (suc sl.limit))
