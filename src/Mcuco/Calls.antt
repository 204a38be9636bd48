-- ===== src/Mcuco/Calls.antt =====
-- Every call of the library as a request: `call` hands a request to its function, `value_of` says
-- what the client gets from an answer.
use mcu_co_sdk.Common.{ℕ, ◌+◌, ◌*◌, ◌^◌, List, [], ◌∷◌, Option, some, ◌&&◌, ◌==◌, if◌then◌else◌}
use mcu_co_sdk.Values.{mcuco_status_ok, mcuco_status_err_bad_frame, level_low, level_high}
use mcu_co_sdk.Os.{Os, M, pure, ◌>>=◌}
use mcu_co_sdk.Protocol.Commands.Request.{
  Request, probe, reset, gpio_cfg, gpio_set, gpio_get, gpio_toggle, irq_cfg, irq_bind, irq_unbind,
  group_cfg, group_get, group_release, channel_cfg, channel_set, channel_get, channel_release,
}
use mcu_co_sdk.Mcuco.{
  Mcuco, mcuco_probe, mcuco_reset, mcuco_gpio_cfg, mcuco_gpio_set, mcuco_gpio_toggle,
  mcuco_gpio_get, mcuco_gpio_irq_cfg, mcuco_gpio_irq_bind, mcuco_gpio_irq_unbind,
  mcuco_pwm_group_cfg, mcuco_pwm_group_get, mcuco_pwm_group_release, mcuco_pwm_channel_cfg,
  mcuco_pwm_channel_set, mcuco_pwm_channel_get, mcuco_pwm_channel_release,
}
use mcu_co_sdk.Mcuco.Exchange.{reply_status}

module _ (os : Os) (fuel : ℕ) where
  open os use {State}

  -- A call that has no result leaves `out` alone.
  abbrev pub no_result : M State ℕ → Option ℕ → M State (ℕ × Option ℕ)
  no_result m out = m >>= λ status. pure (status, out)

  -- The status, and what is left behind the pointer for the result.
  unfoldable pub call : Request → Option Mcuco → Option ℕ → M State (ℕ × Option ℕ)
  unfolding mcuco_probe mcuco_reset mcuco_gpio_cfg mcuco_gpio_set mcuco_gpio_toggle mcuco_gpio_get
      mcuco_gpio_irq_cfg mcuco_gpio_irq_bind mcuco_gpio_irq_unbind mcuco_pwm_group_cfg
      mcuco_pwm_group_get mcuco_pwm_group_release mcuco_pwm_channel_cfg mcuco_pwm_channel_set
      mcuco_pwm_channel_get mcuco_pwm_channel_release
  call probe mcu out = no_result (mcuco_probe os fuel mcu) out
  call reset mcu out = no_result (mcuco_reset os fuel mcu) out
  call (gpio_cfg dir port pin) mcu out = no_result (mcuco_gpio_cfg os fuel mcu dir port pin) out
  call (gpio_set level port pin) mcu out = no_result (mcuco_gpio_set os fuel mcu level port pin) out
  call (gpio_get port pin) mcu out = mcuco_gpio_get os fuel mcu port pin out
  call (gpio_toggle port pin) mcu out = mcuco_gpio_toggle os fuel mcu port pin out
  call (irq_cfg edge port pin) mcu out =
      no_result (mcuco_gpio_irq_cfg os fuel mcu edge port pin) out
  call (irq_bind edge in_port in_pin action out_port out_pin) mcu out =
      no_result (mcuco_gpio_irq_bind os fuel mcu edge in_port in_pin action out_port out_pin) out
  call (irq_unbind port pin) mcu out = no_result (mcuco_gpio_irq_unbind os fuel mcu port pin) out
  call (group_cfg freq_hz group) mcu out =
      no_result (mcuco_pwm_group_cfg os fuel mcu freq_hz group) out
  call (group_get group) mcu out = mcuco_pwm_group_get os fuel mcu group out
  call (group_release group) mcu out = no_result (mcuco_pwm_group_release os fuel mcu group) out
  call (channel_cfg polarity port pin) mcu out =
      no_result (mcuco_pwm_channel_cfg os fuel mcu polarity port pin) out
  call (channel_set duty port pin) mcu out =
      no_result (mcuco_pwm_channel_set os fuel mcu duty port pin) out
  call (channel_get port pin) mcu out = mcuco_pwm_channel_get os fuel mcu port pin out
  call (channel_release port pin) mcu out =
      no_result (mcuco_pwm_channel_release os fuel mcu port pin) out

-- The level that a byte stands for.
abbrev level_value : List ℕ → ℕ → ℕ × Option ℕ
level_value (b ∷ []) out = (mcuco_status_ok, some (if b == 0 then level_low else level_high))
level_value _ out = (mcuco_status_err_bad_frame, some out)

abbrev frequency_value : List ℕ → ℕ → ℕ × Option ℕ
frequency_value (a ∷ b ∷ c ∷ d ∷ []) out =
    (mcuco_status_ok, some (a + b * 2 ^ 8 + c * 2 ^ 16 + d * 2 ^ 24))
frequency_value _ out = (mcuco_status_err_bad_frame, some out)

abbrev duty_value : List ℕ → ℕ → ℕ × Option ℕ
duty_value (a ∷ b ∷ []) out = (mcuco_status_ok, some (a + b * 256))
duty_value _ out = (mcuco_status_err_bad_frame, some out)

-- "MCUO"
abbrev magic_value : List ℕ → ℕ → ℕ × Option ℕ
magic_value (a ∷ b ∷ c ∷ d ∷ []) out = (
  if a == b'M' && b == b'C' && c == b'U' && d == b'O'
      then mcuco_status_ok
      else mcuco_status_err_bad_frame,
  some out,
)
magic_value _ out = (mcuco_status_err_bad_frame, some out)

-- The status and the result for the data of an answer that was a success.
abbrev pub value_of : Request → List ℕ → ℕ → ℕ × Option ℕ
value_of probe payload out = magic_value payload out
value_of (gpio_get _ _) payload out = level_value payload out
value_of (gpio_toggle _ _) payload out = level_value payload out
value_of (group_get _) payload out = frequency_value payload out
value_of (channel_get _ _) payload out = duty_value payload out
value_of _ payload out = (mcuco_status_ok, some out)

-- The status and the result for an answer.
abbrev pub interpret : Request → ℕ → List ℕ → ℕ → ℕ × Option ℕ
interpret r ack payload out =
    if reply_status ack payload == mcuco_status_ok
    then value_of r payload out
    else (reply_status ack payload, some out)
