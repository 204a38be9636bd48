-- ===== src/Mcuco.antt =====
-- library/src/mcuco.c and library/include/mcuco.h: the calls of the library on an open handle.
-- `none` is a NULL handle or a NULL pointer for a result; a call returns its status and what it
-- leaves behind that pointer. The local array `frame` starts as zeros.
pub mod Exchange
pub mod Calls
pub mod Frame
pub mod Handle
pub mod Steady
pub mod Lifecycle
pub mod Confirmed
pub mod Answers
pub mod Results
pub mod Rejects
use mcu_co_sdk.Common.{
  ℕ, zero, suc, List, [], ◌∷◌, Option, none, some, Bool, true, false, ◌&&◌, ◌||◌,
}
use mcu_co_sdk.Common.{◌==◌, ◌!=◌, not, if◌then◌else◌, get_or, drop, replicate}
use mcu_co_sdk.Common.Int.{ℤ, is_neg, pos_part, neg_part}
use mcu_co_sdk.Endianess.{get_u16_le, get_u32_le}
use mcu_co_sdk.Values.{mcuco_status_ok, mcuco_status_err_arg, mcuco_status_err_bad_frame}
use mcu_co_sdk.Values.{level_low, level_high}
use mcu_co_sdk.Protocol.Defs.{Response, empty_response, protocol_max_command_frame, probe_magic_len}
use mcu_co_sdk.Protocol.Commands.{
  Built, get_or_nil, protocol_probe, protocol_reset, protocol_gpio_cfg, protocol_gpio_set,
  protocol_gpio_get, protocol_gpio_toggle, protocol_gpio_irq_cfg, protocol_gpio_irq_bind,
  protocol_gpio_irq_unbind, protocol_pwm_group_cfg, protocol_pwm_group_get,
  protocol_pwm_group_release, protocol_pwm_channel_cfg, protocol_pwm_channel_set,
  protocol_pwm_channel_get, protocol_pwm_channel_release,
}
use mcu_co_sdk.Os.{Os, M, pure, ◌>>=◌}
use mcu_co_sdk.CommandTransport.{transmit_command, receive_response}

-- `struct mcuco`
pub record Mcuco : Type 0 where
  pub fd : ℤ
  pub timeout_ms : ℤ

unfoldable pub status_from_response : Response → ℕ
status_from_response response =
    if response.ack
    then mcuco_status_ok
    else if response.data_len != 1
    then mcuco_status_err_bad_frame
    else get_or response.bytes 0 0

-- The local `decoded`, which is never NULL.
abbrev pub decoded_of : Option Response → Response
decoded_of none = empty_response
decoded_of (some response) = response

-- `if (response != NULL) *response = decoded;`
abbrev pub store_response : Option Response → Response → Option Response
store_response none decoded = none
store_response (some old) decoded = some decoded

-- `uint8_t frame[PROTOCOL_MAX_COMMAND_FRAME]`
abbrev pub frame_array : List ℕ
frame_array = replicate protocol_max_command_frame 0

-- 'M', 'C', 'U', 'O'
abbrev pub expected_magic : List ℕ
expected_magic = 77 ∷ 67 ∷ 85 ∷ 79 ∷ []

-- `memcmp(a, b, n) == 0`
abbrev pub same_bytes : ℕ → List ℕ → List ℕ → Bool
same_bytes zero xs ys = true
same_bytes (suc n) xs ys = get_or xs 0 0 == get_or ys 0 0 && same_bytes n (drop 1 xs) (drop 1 ys)

-- What `mcuco_probe` makes of a response.
pub probe_result : Response → ℕ
probe_result response =
    if response.data_len != probe_magic_len
      || not (same_bytes probe_magic_len response.bytes expected_magic)
    then mcuco_status_err_bad_frame
    else mcuco_status_ok

-- What `mcuco_gpio_toggle` and `mcuco_gpio_get` make of a response.
pub level_result : Response → ℕ → ℕ × Option ℕ
level_result response level =
    if response.data_len != 1
    then (mcuco_status_err_bad_frame, some level)
    else (mcuco_status_ok, some (if get_or response.bytes 0 0 != 0 then level_high else level_low))

-- What `mcuco_pwm_group_get` makes of a response.
pub frequency_result : Response → ℕ → ℕ × Option ℕ
frequency_result response achieved_hz =
    if response.data_len != 4
    then (mcuco_status_err_bad_frame, some achieved_hz)
    else let (got, value) = get_u32_le (some response.bytes) (some achieved_hz) in
      (if is_neg got then mcuco_status_err_arg else mcuco_status_ok, value)

-- What `mcuco_pwm_channel_get` makes of a response.
pub duty_result : Response → ℕ → ℕ × Option ℕ
duty_result response duty =
    if response.data_len != 2
    then (mcuco_status_err_bad_frame, some duty)
    else let (got, value) = get_u16_le (some response.bytes) (some duty) in
      (if is_neg got then mcuco_status_err_arg else mcuco_status_ok, value)

module _ (os : Os) (fuel : ℕ) where
  open os use {State}

  unfoldable pub exchange : Mcuco → List ℕ → ℤ → Option Response → M State (ℕ × Option Response)
  exchange mcu frame frame_len response =
      if is_neg frame_len then pure (neg_part frame_len, response) else do
        status ← transmit_command os fuel mcu.fd (some frame) (pos_part frame_len)
        if status != mcuco_status_ok then pure (status, response) else do
          (status, received) ← receive_response os fuel mcu.fd mcu.timeout_ms (some empty_response)
          if status != mcuco_status_ok
              then pure (status, response)
              else (let decoded = decoded_of received in
                  let status = status_from_response decoded in
                  if status != mcuco_status_ok
                  then pure (status, response)
                  else pure (mcuco_status_ok, store_response response decoded))

  -- `return exchange(mcu, frame, frame_len, NULL);` after a builder has run on the local array.
  abbrev pub exchange_status : Mcuco → Built → M State ℕ
  exchange_status mcu (frame_len, frame) = do
    (status, response) ← exchange mcu (get_or_nil frame) frame_len none
    pure status

  -- The calls that read a value: the exchange, and then what is made of the response.
  pub exchange_data : Mcuco → Built → ℕ → (Response → ℕ → ℕ × Option ℕ) → M State (ℕ × Option ℕ)
  exchange_data mcu (frame_len, frame) out result = do
    (status, response) ← exchange mcu (get_or_nil frame) frame_len (some empty_response)
    if status != mcuco_status_ok
        then pure (status, some out)
        else pure (result (decoded_of response) out)

  unfoldable pub mcuco_probe : Option Mcuco → M State ℕ
  unfolding probe_result
  mcuco_probe none = pure mcuco_status_err_arg
  mcuco_probe (some mcu) = do
    let (frame_len, frame) = protocol_probe (some frame_array) protocol_max_command_frame
    (status, received) ← exchange mcu (get_or_nil frame) frame_len (some empty_response)
    let response = decoded_of received
    if status != mcuco_status_ok then pure status else pure (probe_result response)

  unfoldable pub mcuco_reset : Option Mcuco → M State ℕ
  mcuco_reset none = pure mcuco_status_err_arg
  mcuco_reset (some mcu) =
      exchange_status mcu (protocol_reset (some frame_array) protocol_max_command_frame)

  unfoldable pub mcuco_gpio_cfg : Option Mcuco → ℕ → ℕ → ℕ → M State ℕ
  mcuco_gpio_cfg none dir port pin = pure mcuco_status_err_arg
  mcuco_gpio_cfg (some mcu) dir port pin =
      exchange_status mcu
        (protocol_gpio_cfg dir port pin (some frame_array) protocol_max_command_frame)

  unfoldable pub mcuco_gpio_set : Option Mcuco → ℕ → ℕ → ℕ → M State ℕ
  mcuco_gpio_set none level port pin = pure mcuco_status_err_arg
  mcuco_gpio_set (some mcu) level port pin =
      exchange_status mcu
        (protocol_gpio_set level port pin (some frame_array) protocol_max_command_frame)

  unfoldable pub mcuco_gpio_irq_cfg : Option Mcuco → ℕ → ℕ → ℕ → M State ℕ
  mcuco_gpio_irq_cfg none edge port pin = pure mcuco_status_err_arg
  mcuco_gpio_irq_cfg (some mcu) edge port pin =
      exchange_status mcu
        (protocol_gpio_irq_cfg edge port pin (some frame_array) protocol_max_command_frame)

  unfoldable pub mcuco_gpio_irq_bind : Option Mcuco → ℕ → ℕ → ℕ → ℕ → ℕ → ℕ → M State ℕ
  mcuco_gpio_irq_bind none edge in_port in_pin action out_port out_pin = pure mcuco_status_err_arg
  mcuco_gpio_irq_bind (some mcu) edge in_port in_pin action out_port out_pin = exchange_status mcu (
      protocol_gpio_irq_bind edge in_port in_pin action out_port out_pin (some frame_array)
        protocol_max_command_frame)

  unfoldable pub mcuco_gpio_irq_unbind : Option Mcuco → ℕ → ℕ → M State ℕ
  mcuco_gpio_irq_unbind none port pin = pure mcuco_status_err_arg
  mcuco_gpio_irq_unbind (some mcu) port pin =
      exchange_status mcu
        (protocol_gpio_irq_unbind port pin (some frame_array) protocol_max_command_frame)

  unfoldable pub mcuco_pwm_group_cfg : Option Mcuco → ℕ → ℕ → M State ℕ
  mcuco_pwm_group_cfg none freq_hz group = pure mcuco_status_err_arg
  mcuco_pwm_group_cfg (some mcu) freq_hz group =
      exchange_status mcu
        (protocol_pwm_group_cfg freq_hz group (some frame_array) protocol_max_command_frame)

  unfoldable pub mcuco_pwm_group_release : Option Mcuco → ℕ → M State ℕ
  mcuco_pwm_group_release none group = pure mcuco_status_err_arg
  mcuco_pwm_group_release (some mcu) group =
      exchange_status mcu
        (protocol_pwm_group_release group (some frame_array) protocol_max_command_frame)

  unfoldable pub mcuco_pwm_channel_cfg : Option Mcuco → ℕ → ℕ → ℕ → M State ℕ
  mcuco_pwm_channel_cfg none polarity port pin = pure mcuco_status_err_arg
  mcuco_pwm_channel_cfg (some mcu) polarity port pin =
      exchange_status mcu
        (protocol_pwm_channel_cfg polarity port pin (some frame_array) protocol_max_command_frame)

  unfoldable pub mcuco_pwm_channel_set : Option Mcuco → ℕ → ℕ → ℕ → M State ℕ
  mcuco_pwm_channel_set none duty port pin = pure mcuco_status_err_arg
  mcuco_pwm_channel_set (some mcu) duty port pin =
      exchange_status mcu
        (protocol_pwm_channel_set duty port pin (some frame_array) protocol_max_command_frame)

  unfoldable pub mcuco_pwm_channel_release : Option Mcuco → ℕ → ℕ → M State ℕ
  mcuco_pwm_channel_release none port pin = pure mcuco_status_err_arg
  mcuco_pwm_channel_release (some mcu) port pin =
      exchange_status mcu
        (protocol_pwm_channel_release port pin (some frame_array) protocol_max_command_frame)

  unfoldable pub mcuco_gpio_toggle : Option Mcuco → ℕ → ℕ → Option ℕ → M State (ℕ × Option ℕ)
  unfolding exchange_data level_result
  mcuco_gpio_toggle none port pin level = pure (mcuco_status_err_arg, level)
  mcuco_gpio_toggle (some mcu) port pin none = pure (mcuco_status_err_arg, none)
  mcuco_gpio_toggle (some mcu) port pin (some level) =
      exchange_data mcu
        (protocol_gpio_toggle port pin (some frame_array) protocol_max_command_frame) level
        level_result

  unfoldable pub mcuco_gpio_get : Option Mcuco → ℕ → ℕ → Option ℕ → M State (ℕ × Option ℕ)
  unfolding exchange_data level_result
  mcuco_gpio_get none port pin level = pure (mcuco_status_err_arg, level)
  mcuco_gpio_get (some mcu) port pin none = pure (mcuco_status_err_arg, none)
  mcuco_gpio_get (some mcu) port pin (some level) =
      exchange_data mcu (protocol_gpio_get port pin (some frame_array) protocol_max_command_frame)
        level level_result

  unfoldable pub mcuco_pwm_group_get : Option Mcuco → ℕ → Option ℕ → M State (ℕ × Option ℕ)
  unfolding exchange_data frequency_result
  mcuco_pwm_group_get none group achieved_hz = pure (mcuco_status_err_arg, achieved_hz)
  mcuco_pwm_group_get (some mcu) group none = pure (mcuco_status_err_arg, none)
  mcuco_pwm_group_get (some mcu) group (some achieved_hz) =
      exchange_data mcu (protocol_pwm_group_get group (some frame_array) protocol_max_command_frame)
        achieved_hz frequency_result

  unfoldable pub mcuco_pwm_channel_get : Option Mcuco → ℕ → ℕ → Option ℕ → M State (ℕ × Option ℕ)
  unfolding exchange_data duty_result
  mcuco_pwm_channel_get none port pin duty = pure (mcuco_status_err_arg, duty)
  mcuco_pwm_channel_get (some mcu) port pin none = pure (mcuco_status_err_arg, none)
  mcuco_pwm_channel_get (some mcu) port pin (some duty) =
      exchange_data mcu
        (protocol_pwm_channel_get port pin (some frame_array) protocol_max_command_frame) duty
        duty_result
