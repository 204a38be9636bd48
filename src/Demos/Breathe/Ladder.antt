-- ===== src/Demos/Breathe/Ladder.antt =====
-- The ramp of examples/pwm_breathe.c against the list of the duties that it goes through.
use mcu_co_sdk.Common.{
  ℕ, zero, suc, ◌+◌, ◌*◌, ◌≤◌, ◌<◌, ◌≡◌, refl, ap, ◌∙◌, some, List, [], ◌∷◌, true, false, ◌==◌,
  ◌!=◌, if◌then◌else◌, u16, arith,
}
use mathlib.Core.Path.{fun_ext}
use mcu_co_sdk.Common.Int.{ℤ, pos, negsuc}
use mcu_co_sdk.Values.{mcuco_status_ok, duty_max, port_a}
use mcu_co_sdk.Os.{M, pure, lift, ◌>>=◌}
use mcu_co_sdk.System.{System}
use mcu_co_sdk.Mcuco.{mcuco_pwm_channel_set}
use mcu_co_sdk.Mcuco.Handle.{Handle}
use mcu_co_sdk.Demos.{Signals}
use mcu_co_sdk.Demos.Breathe.{next_duty, led_pin, wait_a_step, ramp_loop, ramp}
use mcu_co_sdk.Demos.Breathe.Ramp.{next_duty-up, next_duty-down}

-- The next `k` multiples of 20 after `20 * i`, and the `k` below `20 * k`.
abbrev pub rungs_up : ℕ → ℕ → List ℕ
rungs_up i zero = []
rungs_up i (suc k) = 20 * (i + 1) ∷ rungs_up (i + 1) k

abbrev pub rungs_down : ℕ → List ℕ
rungs_down zero = []
rungs_down (suc k) = 20 * k ∷ rungs_down k

module _ (sys : System) (signals : Signals sys.State) (fuel : ℕ) (mcu : Handle) where
  -- Unless the user has stopped the program, the duty is set; `rest` is what follows on success.
  abbrev pub set_then : ℕ → M sys.State ℕ → M sys.State ℕ
  set_then d rest = lift signals.stop_requested >>= λ stop.
      if stop
      then pure mcuco_status_ok
      else (mcuco_pwm_channel_set sys.os fuel (some mcu.mcu) d port_a led_pin >>= λ status.
          if status != mcuco_status_ok then pure status else rest)

  -- The duties are set one after the other, with a wait between two of them.
  abbrev pub set_each : ℕ → List ℕ → M sys.State ℕ
  set_each d [] = set_then d (pure mcuco_status_ok)
  set_each d (e ∷ ds) = set_then d (lift (wait_a_step sys signals fuel) >>= λ u. set_each e ds)

  -- One round of the loop at a duty in range, given what follows it.
  ramp_loop-set_then :
      (steps d t : ℕ) (step : ℤ) (rest : M sys.State ℕ) (s : sys.State)
      → d ≤ 1000
      → (if d == t
          then pure mcuco_status_ok
          else (lift (wait_a_step sys signals fuel) >>= λ u.
              ramp_loop sys signals fuel steps mcu step (pos t) (next_duty step (pos t) (pos d))))
        ≡ rest
      → ramp_loop sys signals fuel (suc steps) mcu step (pos t) (pos d) s ≡ set_then d rest s
  unfolding ramp_loop
  ramp_loop-set_then steps d t step rest s small e =
      ap (λ r. set_then (u16 d) r s) e ∙ ap (λ (n : ℕ). set_then n rest s) (omega arith)

  ramp_up-set_each :
      (steps i k : ℕ) (s : sys.State)
      → i + k ≡ 50
      → k < steps
      → ramp_loop sys signals fuel steps mcu (pos 20) (pos 1000) (pos (20 * i)) s
        ≡ set_each (20 * i) (rungs_up i k) s
  ramp_up-set_each zero i k s e h = absurd (omega arith)
  ramp_up-set_each (suc steps) i zero s e h =
      ramp_loop-set_then steps (20 * i) 1000 (pos 20) _ s (omega arith)
        (let last : (20 * i == 1000) ≡ true = ground arith in rw last refl)
  ramp_up-set_each (suc steps) i (suc k) s e h =
      ramp_loop-set_then steps (20 * i) 1000 (pos 20)
        (lift (wait_a_step sys signals fuel) >>= λ u. set_each (20 * (i + 1)) (rungs_up (i + 1) k))
        s (omega arith)
        (let more : (20 * i == 1000) ≡ false = ground arith in
          let next : next_duty (pos 20) (pos 1000) (pos (20 * i)) ≡ pos (20 * (i + 1)) =
            next_duty-up (20 * i) 1000 (omega arith) ∙ ap pos (ground arith) in
          rw (more, next)
            (ap (λ rest. lift (wait_a_step sys signals fuel) >>= λ u. rest)
              (fun_ext (λ s. ramp_up-set_each steps (i + 1) k s (omega arith) (omega arith)))))

  ramp_down-set_each :
      (steps k : ℕ) (s : sys.State)
      → k ≤ 50
      → k < steps
      → ramp_loop sys signals fuel steps mcu (negsuc 19) (pos 0) (pos (20 * k)) s
        ≡ set_each (20 * k) (rungs_down k) s
  ramp_down-set_each zero k s e h = absurd (omega arith)
  ramp_down-set_each (suc steps) zero s e h =
      ramp_loop-set_then steps 0 0 (negsuc 19) _ s (omega arith) refl
  ramp_down-set_each (suc steps) (suc k) s e h =
      ramp_loop-set_then steps (20 * suc k) 0 (negsuc 19)
        (lift (wait_a_step sys signals fuel) >>= λ u. set_each (20 * k) (rungs_down k)) s
        (omega arith)
        (let more : (20 * suc k == 0) ≡ false = ground arith in
          let next : next_duty (negsuc 19) (pos 0) (pos (20 * suc k)) ≡ pos (20 * k) =
            next_duty-down (20 * suc k) 0 (omega arith) ∙ ap pos (ground arith) in
          rw (more, next)
            (ap (λ rest. lift (wait_a_step sys signals fuel) >>= λ u. rest)
              (fun_ext (λ s. ramp_down-set_each steps k s (omega arith) (omega arith)))))

  -- With at least 51 rounds, a ramp up sets the duties 0, 20, 40 and so on to 1000, and a ramp down
  -- those from 1000 to 0, each once, in order and with a wait between two of them; an error or the
  -- user ends it before.
  pub ramp-set_each :
      (steps : ℕ) (s : sys.State)
      → 50 < steps
      → (ramp sys signals fuel steps mcu (pos 0) (pos duty_max) s ≡ set_each 0 (rungs_up 0 50) s)
        × (ramp sys signals fuel steps mcu (pos duty_max) (pos 0) s
            ≡ set_each 1000 (rungs_down 50) s)
  unfolding ramp
  ramp-set_each steps s enough = (
    ramp_up-set_each steps 0 50 s refl enough,
    ramp_down-set_each steps 50 s (omega arith) enough,
  )
