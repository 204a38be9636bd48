-- ===== src/Protocol/Defs.antt =====
-- library/include/protocol_defs.h: the constants of the wire, and `protocol_response_t` of
-- library/include/protocol.h.
use mcu_co_sdk.Common.{ℕ, ◌+◌, Bool, false, List, replicate}

abbrev pub protocol_sof : ℕ
protocol_sof = 0xa5

abbrev pub protocol_max_payload : ℕ
protocol_max_payload = 32

abbrev pub protocol_max_response_data : ℕ
protocol_max_response_data = 4

abbrev pub protocol_command_overhead : ℕ
protocol_command_overhead = 5

abbrev pub protocol_response_overhead : ℕ
protocol_response_overhead = 4

abbrev pub protocol_max_command_frame : ℕ
protocol_max_command_frame = protocol_command_overhead + protocol_max_payload

abbrev pub protocol_min_response_len : ℕ
protocol_min_response_len = 1

abbrev pub protocol_max_response_len : ℕ
protocol_max_response_len = protocol_min_response_len + protocol_max_response_data

abbrev pub protocol_min_response_frame : ℕ
protocol_min_response_frame = protocol_response_overhead + protocol_min_response_len

abbrev pub protocol_max_response_frame : ℕ
protocol_max_response_frame = protocol_response_overhead + protocol_max_response_len

abbrev pub command_sof_idx : ℕ
command_sof_idx = 0

abbrev pub command_opcode_idx : ℕ
command_opcode_idx = 1

abbrev pub command_len_idx : ℕ
command_len_idx = 2

abbrev pub command_payload_idx : ℕ
command_payload_idx = 3

abbrev pub response_sof_idx : ℕ
response_sof_idx = 0

abbrev pub response_len_idx : ℕ
response_len_idx = 1

abbrev pub response_ack_idx : ℕ
response_ack_idx = 2

abbrev pub response_data_idx : ℕ
response_data_idx = 3

abbrev pub probe_magic_len : ℕ
probe_magic_len = 4

-- `protocol_opcode_t`
pub data Opcode : Type 0 where
  probe reset : Opcode
  gpio_cfg gpio_write gpio_read gpio_irq_bind gpio_irq_cfg gpio_irq_unbind gpio_toggle : Opcode
  pwm_group_cfg pwm_cfg pwm_set pwm_release pwm_get pwm_group_get pwm_group_release : Opcode

-- The number of each opcode.
unfoldable pub opcode_code : Opcode → ℕ
opcode_code probe = 0x10
opcode_code reset = 0x11
opcode_code gpio_cfg = 0x30
opcode_code gpio_write = 0x31
opcode_code gpio_read = 0x32
opcode_code gpio_irq_bind = 0x33
opcode_code gpio_irq_cfg = 0x34
opcode_code gpio_irq_unbind = 0x35
opcode_code gpio_toggle = 0x36
opcode_code pwm_group_cfg = 0x40
opcode_code pwm_cfg = 0x41
opcode_code pwm_set = 0x42
opcode_code pwm_release = 0x43
opcode_code pwm_get = 0x44
opcode_code pwm_group_get = 0x45
opcode_code pwm_group_release = 0x46

-- `protocol_response_t`; `bytes` is its array `data` of four bytes.
pub record Response : Type 0 where
  pub ack : Bool
  pub bytes : List ℕ
  pub data_len : ℕ

-- `protocol_response_t response = {0};`
abbrev pub empty_response : Response
empty_response = record {
  ack = false;
  bytes = replicate protocol_max_response_data 0;
  data_len = 0;
}
