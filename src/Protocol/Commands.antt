-- ===== src/Protocol/Commands.antt =====
-- The command builders of library/src/protocol.c, each with its guards. A local array `payload`
-- that is written whole is the list of its elements; one that a helper fills starts as zeros and is
-- then written through.
pub mod Request
pub mod Accepts
use mcu_co_sdk.Common.{ℕ, ◌^◌, ◌%◌, List, [], ◌∷◌, Option, none, some, Bool, not, ◌&&◌, ◌||◌}
use mcu_co_sdk.Common.{ltb, leb, ◌==◌, ◌!=◌, if◌then◌else◌, u8, set, replicate}
use mcu_co_sdk.Common.Int.{ℤ, neg_ℕ}
use mcu_co_sdk.Endianess.{put_u16_le, put_u32_le}
use mcu_co_sdk.Values.{
  mcuco_status_err_arg, port_g, pin_max, group_max, duty_max, freq_min, freq_max,
}
use mcu_co_sdk.Values.{dir_input, dir_output, level_low, level_high, edge_rising, edge_both}
use mcu_co_sdk.Values.{action_toggle, pol_active_high, pol_active_low}
use mcu_co_sdk.Protocol.Defs.{Opcode}
use mcu_co_sdk.Protocol.Build.{build_frame}

-- The caller's buffer, `none` for NULL, and what a builder returns and leaves in it.
abbrev pub Buffer : Type 0
Buffer = Option (List ℕ)

abbrev pub Built : Type 0
Built = ℤ × Buffer

pub is_valid_port : ℕ → Bool
is_valid_port port = leb port port_g

pub is_valid_pin : ℕ → Bool
is_valid_pin pin = leb pin pin_max

pub is_valid_group : ℕ → Bool
is_valid_group group = leb group group_max

-- The local array behind a pointer that is not NULL.
abbrev pub get_or_nil : Option (List ℕ) → List ℕ
get_or_nil none = []
get_or_nil (some payload) = payload

unfoldable pub protocol_probe : Buffer → ℕ → Built
protocol_probe buffer buffer_len = build_frame Opcode.probe [] 0 buffer buffer_len

unfoldable pub protocol_reset : Buffer → ℕ → Built
protocol_reset buffer buffer_len = build_frame Opcode.reset [] 0 buffer buffer_len

unfoldable pub protocol_gpio_cfg : ℕ → ℕ → ℕ → Buffer → ℕ → Built
unfolding is_valid_port is_valid_pin
protocol_gpio_cfg dir port pin buffer buffer_len =
    if dir != dir_input && dir != dir_output
    then (neg_ℕ mcuco_status_err_arg, buffer)
    else if not (is_valid_port port) || not (is_valid_pin pin)
    then (neg_ℕ mcuco_status_err_arg, buffer)
    else build_frame Opcode.gpio_cfg (u8 dir ∷ u8 port ∷ pin ∷ []) 3 buffer buffer_len

unfoldable pub protocol_gpio_set : ℕ → ℕ → ℕ → Buffer → ℕ → Built
unfolding is_valid_port is_valid_pin
protocol_gpio_set level port pin buffer buffer_len =
    if level != level_low && level != level_high
    then (neg_ℕ mcuco_status_err_arg, buffer)
    else if not (is_valid_port port) || not (is_valid_pin pin)
    then (neg_ℕ mcuco_status_err_arg, buffer)
    else build_frame Opcode.gpio_write (u8 level ∷ u8 port ∷ pin ∷ []) 3 buffer buffer_len

unfoldable pub protocol_gpio_get : ℕ → ℕ → Buffer → ℕ → Built
unfolding is_valid_port is_valid_pin
protocol_gpio_get port pin buffer buffer_len =
    if not (is_valid_port port) || not (is_valid_pin pin)
    then (neg_ℕ mcuco_status_err_arg, buffer)
    else build_frame Opcode.gpio_read (u8 port ∷ pin ∷ []) 2 buffer buffer_len

unfoldable pub protocol_pwm_group_cfg : ℕ → ℕ → Buffer → ℕ → Built
unfolding is_valid_group
protocol_pwm_group_cfg freq_hz group buffer buffer_len =
    if ltb freq_hz freq_min || ltb freq_max freq_hz
    then (neg_ℕ mcuco_status_err_arg, buffer)
    else if not (is_valid_group group)
    then (neg_ℕ mcuco_status_err_arg, buffer)
    else let payload = get_or_nil (put_u32_le (some (replicate 5 0)) freq_hz).1 in
      let payload = set payload 4 group in
      build_frame Opcode.pwm_group_cfg payload 5 buffer buffer_len

unfoldable pub protocol_pwm_group_get : ℕ → Buffer → ℕ → Built
unfolding is_valid_group
protocol_pwm_group_get group buffer buffer_len =
    if not (is_valid_group group)
    then (neg_ℕ mcuco_status_err_arg, buffer)
    else build_frame Opcode.pwm_group_get (group ∷ []) 1 buffer buffer_len

unfoldable pub protocol_gpio_toggle : ℕ → ℕ → Buffer → ℕ → Built
unfolding is_valid_port is_valid_pin
protocol_gpio_toggle port pin buffer buffer_len =
    if not (is_valid_port port) || not (is_valid_pin pin)
    then (neg_ℕ mcuco_status_err_arg, buffer)
    else build_frame Opcode.gpio_toggle (u8 port ∷ pin ∷ []) 2 buffer buffer_len

unfoldable pub protocol_gpio_irq_cfg : ℕ → ℕ → ℕ → Buffer → ℕ → Built
unfolding is_valid_port is_valid_pin
protocol_gpio_irq_cfg edge port pin buffer buffer_len =
    if ltb edge_both edge
    then (neg_ℕ mcuco_status_err_arg, buffer)
    else if not (is_valid_port port) || not (is_valid_pin pin)
    then (neg_ℕ mcuco_status_err_arg, buffer)
    else build_frame Opcode.gpio_irq_cfg (u8 edge ∷ u8 port ∷ pin ∷ []) 3 buffer buffer_len

unfoldable pub protocol_gpio_irq_bind : ℕ → ℕ → ℕ → ℕ → ℕ → ℕ → Buffer → ℕ → Built
unfolding is_valid_port is_valid_pin
protocol_gpio_irq_bind edge in_port in_pin action out_port out_pin buffer buffer_len =
    if ltb edge edge_rising || ltb edge_both edge
    then (neg_ℕ mcuco_status_err_arg, buffer)
    else if ltb action_toggle action
    then (neg_ℕ mcuco_status_err_arg, buffer)
    else if not (is_valid_port in_port) || not (is_valid_pin in_pin)
    then (neg_ℕ mcuco_status_err_arg, buffer)
    else if not (is_valid_port out_port) || not (is_valid_pin out_pin)
    then (neg_ℕ mcuco_status_err_arg, buffer)
    else build_frame Opcode.gpio_irq_bind
        (u8 edge ∷ u8 in_port ∷ in_pin ∷ u8 action ∷ u8 out_port ∷ out_pin ∷ []) 6 buffer buffer_len

unfoldable pub protocol_gpio_irq_unbind : ℕ → ℕ → Buffer → ℕ → Built
unfolding is_valid_port is_valid_pin
protocol_gpio_irq_unbind port pin buffer buffer_len =
    if not (is_valid_port port) || not (is_valid_pin pin)
    then (neg_ℕ mcuco_status_err_arg, buffer)
    else build_frame Opcode.gpio_irq_unbind (u8 port ∷ pin ∷ []) 2 buffer buffer_len

unfoldable pub protocol_pwm_group_release : ℕ → Buffer → ℕ → Built
unfolding is_valid_group
protocol_pwm_group_release group buffer buffer_len =
    if not (is_valid_group group)
    then (neg_ℕ mcuco_status_err_arg, buffer)
    else build_frame Opcode.pwm_group_release (group ∷ []) 1 buffer buffer_len

unfoldable pub protocol_pwm_channel_cfg : ℕ → ℕ → ℕ → Buffer → ℕ → Built
unfolding is_valid_port is_valid_pin
protocol_pwm_channel_cfg polarity port pin buffer buffer_len =
    if polarity != pol_active_high && polarity != pol_active_low
    then (neg_ℕ mcuco_status_err_arg, buffer)
    else if not (is_valid_port port) || not (is_valid_pin pin)
    then (neg_ℕ mcuco_status_err_arg, buffer)
    else build_frame Opcode.pwm_cfg (u8 polarity ∷ u8 port ∷ pin ∷ []) 3 buffer buffer_len

unfoldable pub protocol_pwm_channel_set : ℕ → ℕ → ℕ → Buffer → ℕ → Built
unfolding is_valid_port is_valid_pin
protocol_pwm_channel_set duty port pin buffer buffer_len =
    if ltb duty_max duty
    then (neg_ℕ mcuco_status_err_arg, buffer)
    else if not (is_valid_port port) || not (is_valid_pin pin)
    then (neg_ℕ mcuco_status_err_arg, buffer)
    else let payload = get_or_nil (put_u16_le (some (replicate 4 0)) duty).1 in
      let payload = set payload 2 (u8 port) in
      let payload = set payload 3 pin in build_frame Opcode.pwm_set payload 4 buffer buffer_len

unfoldable pub protocol_pwm_channel_get : ℕ → ℕ → Buffer → ℕ → Built
unfolding is_valid_port is_valid_pin
protocol_pwm_channel_get port pin buffer buffer_len =
    if not (is_valid_port port) || not (is_valid_pin pin)
    then (neg_ℕ mcuco_status_err_arg, buffer)
    else build_frame Opcode.pwm_get (u8 port ∷ pin ∷ []) 2 buffer buffer_len

unfoldable pub protocol_pwm_channel_release : ℕ → ℕ → Buffer → ℕ → Built
unfolding is_valid_port is_valid_pin
protocol_pwm_channel_release port pin buffer buffer_len =
    if not (is_valid_port port) || not (is_valid_pin pin)
    then (neg_ℕ mcuco_status_err_arg, buffer)
    else build_frame Opcode.pwm_release (u8 port ∷ pin ∷ []) 2 buffer buffer_len
