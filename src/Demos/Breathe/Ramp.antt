-- ===== src/Demos/Breathe/Ramp.antt =====
-- The ramp of examples/pwm_breathe.c reaches its end in steps of two percent.
use mcu_co_sdk.Common.{
  ℕ, zero, suc, ◌+◌, ◌-◌, ◌*◌, ◌≤◌, ◌≡◌, some, ◌≢◌, ◌⊎◌, inl, inr, true, false, Bool-cases, ltb,
  ◌==◌, ◌!=◌, if◌then◌else◌, u16, arith,
}
use mcu_co_sdk.Common.Int.{pos, negsuc, eq_ℤ}
use mcu_co_sdk.Values.{mcuco_status_ok, port_a}
use mcu_co_sdk.Protocol.Commands.Request.{channel_set}
use mcu_co_sdk.Os.{M, pure, lift, ◌>>=◌}
use mcu_co_sdk.System.{System}
use mcu_co_sdk.System.Laws.{Laws}
use mcu_co_sdk.Mcuco.{mcuco_pwm_channel_set}
use mcu_co_sdk.Mcuco.Calls.{call}
use mcu_co_sdk.Mcuco.Handle.{Handle}
use mcu_co_sdk.Demos.{Signals}
use mcu_co_sdk.Demos.Laws.{SignalLaws}
use mcu_co_sdk.Demos.Steps.{
  Runs, Runs-pure, Runs-lift, Runs->>=, Runs-if, Runs-call, Runs-no_result,
}
use mcu_co_sdk.Demos.Breathe.{next_duty, led_pin, wait_a_step, ramp_loop}

-- Upwards, the next duty is two percent more, or the end where that is past it.
pub next_duty-up :
    (d t : ℕ)
    → d ≤ t
    → next_duty (pos 20) (pos t) (pos d) ≡ pos (if ltb t (d + 20) then t else d + 20)
next_duty-up d t h = ground arith

-- Downwards, it is two percent less, or the end where that is past it.
pub next_duty-down :
    (d t : ℕ)
    → t ≤ d
    → next_duty (negsuc 19) (pos t) (pos d) ≡ pos (if ltb d (t + 20) then t else d - 20)
next_duty-down d t h = ground arith

module _ (sys : System) (laws : Laws sys) (signals : Signals sys.State)
    (sl : SignalLaws sys laws signals) (fuel : ℕ) where
  set-Runs :
      {n : ℕ} (h : Handle) (d : ℕ)
      → d ≤ 1000
      → Runs sys laws signals sl fuel n
          (mcuco_pwm_channel_set sys.os fuel (some h.mcu) (u16 d) port_a led_pin)
  unfolding call
  set-Runs h d small =
      Runs-no_result sys laws signals sl fuel
        (mcuco_pwm_channel_set sys.os fuel (some h.mcu) (u16 d) port_a led_pin)
        (Runs-call sys laws signals sl fuel h (channel_set (u16 d) port_a led_pin) 0
          (omega arith, (omega arith, omega arith)))

  -- One round of the loop: either it was the last, or `next` follows.
  round-Runs :
      {n : ℕ} (h : Handle) (d t : ℕ) (next : M sys.State ℕ)
      → d ≤ 1000
      → (d ≢ t → Runs sys laws signals sl fuel n next)
      → Runs sys laws signals sl fuel n (
          lift signals.stop_requested >>= λ stop.
          if stop
          then pure mcuco_status_ok
          else (mcuco_pwm_channel_set sys.os fuel (some h.mcu) (u16 d) port_a led_pin >>= λ status.
              if status != mcuco_status_ok
              then pure status
              else if eq_ℤ (pos d) (pos t)
              then pure mcuco_status_ok
              else (lift (wait_a_step sys signals fuel) >>= λ u. next)))
  unfolding wait_a_step
  round-Runs {n} h d t next small more =
      Runs->>= sys laws signals sl fuel
        (Runs-lift sys laws signals sl fuel signals.stop_requested
          (λ s. (sl.stop_quiet s, sl.stop_patience s)))
        (λ stop.
          Runs-if sys laws signals sl fuel stop (Runs-pure sys laws signals sl fuel mcuco_status_ok)
            (Runs->>= sys laws signals sl fuel (set-Runs h d small) (λ status.
              Runs-if sys laws signals sl fuel (status != mcuco_status_ok)
                (Runs-pure sys laws signals sl fuel status) (last (Bool-cases (d == t))))))
    where
      last :
          ((d == t) ≡ true) ⊎ ((d == t) ≡ false)
          → Runs sys laws signals sl fuel n (
              if d == t
              then pure mcuco_status_ok
              else (lift (wait_a_step sys signals fuel) >>= λ u. next))
      last (inl same) = rw same (Runs-pure sys laws signals sl fuel mcuco_status_ok)
      last (inr differ) = rw differ (
          Runs->>= sys laws signals sl fuel
            (Runs-lift sys laws signals sl fuel (wait_a_step sys signals fuel)
              (λ s. (sl.nanosleep_quiet _ s, sl.nanosleep_patience _ s)))
            (λ u. more (ground arith)))

  pub ramp_up-Runs :
      {n : ℕ} (steps : ℕ) (h : Handle) (d t : ℕ)
      → d ≤ t
      → t ≤ 1000
      → t + 20 ≤ d + 20 * steps
      → Runs sys laws signals sl fuel n
          (ramp_loop sys signals fuel steps h (pos 20) (pos t) (pos d))
  unfolding ramp_loop
  ramp_up-Runs zero h d t low high enough = absurd (omega arith)
  ramp_up-Runs (suc steps) h d t low high enough =
      round-Runs h d t
        (ramp_loop sys signals fuel steps h (pos 20) (pos t) (next_duty (pos 20) (pos t) (pos d)))
        (omega arith)
        (λ differ. rw (next_duty-up d t low) (
          ramp_up-Runs steps h (if ltb t (d + 20) then t else d + 20) t (ground arith) high
            (ground arith)))

  pub ramp_down-Runs :
      {n : ℕ} (steps : ℕ) (h : Handle) (d t : ℕ)
      → t ≤ d
      → d ≤ 1000
      → d + 20 ≤ t + 20 * steps
      → Runs sys laws signals sl fuel n
          (ramp_loop sys signals fuel steps h (negsuc 19) (pos t) (pos d))
  unfolding ramp_loop
  ramp_down-Runs zero h d t low high enough = absurd (omega arith)
  ramp_down-Runs (suc steps) h d t low high enough =
      round-Runs h d t
        (ramp_loop sys signals fuel steps h (negsuc 19) (pos t)
          (next_duty (negsuc 19) (pos t) (pos d)))
        high
        (λ differ. rw (next_duty-down d t low) (
          ramp_down-Runs steps h (if ltb d (t + 20) then t else d - 20) t (ground arith)
            (ground arith) (ground arith)))
