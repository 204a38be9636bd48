-- ===== src/Protocol/Commands/Request.antt =====
-- The commands of the protocol as data: the values that each may carry, its opcode and its payload.
-- `build` hands a request to the builder of its command.
use mcu_co_sdk.Common.{ℕ, ◌/◌, ◌%◌, ◌^◌, ◌≤◌, List, [], ◌∷◌, length, arith}
use mcu_co_sdk.Protocol.Defs.{Opcode}
use mcu_co_sdk.Protocol.Commands.{
  Buffer, Built, protocol_probe, protocol_reset, protocol_gpio_cfg, protocol_gpio_set,
  protocol_gpio_get, protocol_gpio_toggle, protocol_gpio_irq_cfg, protocol_gpio_irq_bind,
  protocol_gpio_irq_unbind, protocol_pwm_group_cfg, protocol_pwm_group_get,
  protocol_pwm_group_release, protocol_pwm_channel_cfg, protocol_pwm_channel_set,
  protocol_pwm_channel_get, protocol_pwm_channel_release,
}

pub data Request : Type 0 where
  probe reset : Request
  gpio_cfg gpio_set : (value port pin : ℕ) → Request
  gpio_get gpio_toggle : (port pin : ℕ) → Request
  irq_cfg : (edge port pin : ℕ) → Request
  irq_bind : (edge in_port in_pin action out_port out_pin : ℕ) → Request
  irq_unbind : (port pin : ℕ) → Request
  group_cfg : (freq_hz group : ℕ) → Request
  group_get group_release : (group : ℕ) → Request
  channel_cfg channel_set : (value port pin : ℕ) → Request
  channel_get channel_release : (port pin : ℕ) → Request

abbrev pub IsPin : ℕ → ℕ → Type 0
IsPin port pin = (port ≤ 6) × (pin ≤ 15)

-- The field values that the protocol has.
abbrev pub InRange : Request → Type 0
InRange probe = Unit
InRange reset = Unit
InRange (gpio_cfg dir port pin) = (dir ≤ 1) × IsPin port pin
InRange (gpio_set level port pin) = (level ≤ 1) × IsPin port pin
InRange (gpio_get port pin) = IsPin port pin
InRange (gpio_toggle port pin) = IsPin port pin
InRange (irq_cfg edge port pin) = (edge ≤ 3) × IsPin port pin
InRange (irq_bind edge in_port in_pin action out_port out_pin) =
    (1 ≤ edge) × (edge ≤ 3) × (action ≤ 2) × IsPin in_port in_pin × IsPin out_port out_pin
InRange (irq_unbind port pin) = IsPin port pin
InRange (group_cfg freq_hz group) = (1 ≤ freq_hz) × (freq_hz ≤ 1000000) × (group ≤ 2)
InRange (group_get group) = group ≤ 2
InRange (group_release group) = group ≤ 2
InRange (channel_cfg polarity port pin) = (polarity ≤ 1) × IsPin port pin
InRange (channel_set duty port pin) = (duty ≤ 1000) × IsPin port pin
InRange (channel_get port pin) = IsPin port pin
InRange (channel_release port pin) = IsPin port pin

abbrev pub opcode_of : Request → Opcode
opcode_of probe = Opcode.probe
opcode_of reset = Opcode.reset
opcode_of (gpio_cfg _ _ _) = Opcode.gpio_cfg
opcode_of (gpio_set _ _ _) = Opcode.gpio_write
opcode_of (gpio_get _ _) = Opcode.gpio_read
opcode_of (gpio_toggle _ _) = Opcode.gpio_toggle
opcode_of (irq_cfg _ _ _) = Opcode.gpio_irq_cfg
opcode_of (irq_bind _ _ _ _ _ _) = Opcode.gpio_irq_bind
opcode_of (irq_unbind _ _) = Opcode.gpio_irq_unbind
opcode_of (group_cfg _ _) = Opcode.pwm_group_cfg
opcode_of (group_get _) = Opcode.pwm_group_get
opcode_of (group_release _) = Opcode.pwm_group_release
opcode_of (channel_cfg _ _ _) = Opcode.pwm_cfg
opcode_of (channel_set _ _ _) = Opcode.pwm_set
opcode_of (channel_get _ _) = Opcode.pwm_get
opcode_of (channel_release _ _) = Opcode.pwm_release

-- Values first, then the pin; a frequency takes four bytes and a duty two, lowest first.
abbrev pub payload_of : Request → List ℕ
payload_of probe = []
payload_of reset = []
payload_of (gpio_cfg dir port pin) = dir ∷ port ∷ pin ∷ []
payload_of (gpio_set level port pin) = level ∷ port ∷ pin ∷ []
payload_of (gpio_get port pin) = port ∷ pin ∷ []
payload_of (gpio_toggle port pin) = port ∷ pin ∷ []
payload_of (irq_cfg edge port pin) = edge ∷ port ∷ pin ∷ []
payload_of (irq_bind edge in_port in_pin action out_port out_pin) =
    edge ∷ in_port ∷ in_pin ∷ action ∷ out_port ∷ out_pin ∷ []
payload_of (irq_unbind port pin) = port ∷ pin ∷ []
payload_of (group_cfg f group) =
    f % 256 ∷ f / 2 ^ 8 % 256 ∷ f / 2 ^ 16 % 256 ∷ f / 2 ^ 24 % 256 ∷ group ∷ []
payload_of (group_get group) = group ∷ []
payload_of (group_release group) = group ∷ []
payload_of (channel_cfg polarity port pin) = polarity ∷ port ∷ pin ∷ []
payload_of (channel_set duty port pin) = duty % 256 ∷ duty / 256 % 256 ∷ port ∷ pin ∷ []
payload_of (channel_get port pin) = port ∷ pin ∷ []
payload_of (channel_release port pin) = port ∷ pin ∷ []

unfoldable pub build : Request → Buffer → ℕ → Built
unfolding protocol_probe protocol_reset protocol_gpio_cfg protocol_gpio_set protocol_gpio_get
    protocol_gpio_toggle protocol_gpio_irq_cfg protocol_gpio_irq_bind protocol_gpio_irq_unbind
    protocol_pwm_group_cfg protocol_pwm_group_get protocol_pwm_group_release
    protocol_pwm_channel_cfg protocol_pwm_channel_set protocol_pwm_channel_get
    protocol_pwm_channel_release
build probe = protocol_probe
build reset = protocol_reset
build (gpio_cfg dir port pin) = protocol_gpio_cfg dir port pin
build (gpio_set level port pin) = protocol_gpio_set level port pin
build (gpio_get port pin) = protocol_gpio_get port pin
build (gpio_toggle port pin) = protocol_gpio_toggle port pin
build (irq_cfg edge port pin) = protocol_gpio_irq_cfg edge port pin
build (irq_bind edge in_port in_pin action out_port out_pin) =
    protocol_gpio_irq_bind edge in_port in_pin action out_port out_pin
build (irq_unbind port pin) = protocol_gpio_irq_unbind port pin
build (group_cfg freq_hz group) = protocol_pwm_group_cfg freq_hz group
build (group_get group) = protocol_pwm_group_get group
build (group_release group) = protocol_pwm_group_release group
build (channel_cfg polarity port pin) = protocol_pwm_channel_cfg polarity port pin
build (channel_set duty port pin) = protocol_pwm_channel_set duty port pin
build (channel_get port pin) = protocol_pwm_channel_get port pin
build (channel_release port pin) = protocol_pwm_channel_release port pin

-- The protocol's payloads are short.
pub length-payload_of : (r : Request) → length (payload_of r) ≤ 6
length-payload_of probe = omega arith
length-payload_of _ = omega arith
