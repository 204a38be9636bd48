-- ===== src/Protocol/Build.antt =====
-- `build_frame` of library/src/protocol.c, and the frame that it writes.
pub mod Frame
use mcu_co_sdk.Common.{ℕ, ◌+◌, ◌-◌, ◌/◌, ◌%◌, ◌^◌, List, Option, none, some, bit_and}
use mcu_co_sdk.Common.{ltb, if◌then◌else◌, u8, ◌>>>◌, set, drop, copy_loop}
use mcu_co_sdk.Common.Int.{ℤ, pos, neg_ℕ}
use mcu_co_sdk.Crc16.{crc16_compute}
use mcu_co_sdk.Values.{mcuco_status_err_arg}
use mcu_co_sdk.Protocol.Defs.{Opcode, opcode_code, protocol_sof, protocol_max_payload}
use mcu_co_sdk.Protocol.Defs.{protocol_command_overhead, command_sof_idx, command_opcode_idx}
use mcu_co_sdk.Protocol.Defs.{command_len_idx, command_payload_idx}

-- The writes into a buffer that the guards found large enough.
pub fill_frame : Opcode → List ℕ → ℕ → List ℕ → ℕ → List ℕ
unfolding copy_loop opcode_code
fill_frame opcode payload payload_len buffer frame_len =
    let b = set buffer command_sof_idx protocol_sof in
    let b = set b command_opcode_idx (u8 (opcode_code opcode)) in
    let b = set b command_len_idx (u8 payload_len) in
    let b = copy_loop payload_len 0 payload 0 0 b command_payload_idx in
    let crc = crc16_compute (some (drop command_opcode_idx b)) (payload_len + 2) in
    let b = set b (frame_len - 2) (u8 (bit_and crc 0xff)) in set b (frame_len - 1) (u8 (crc >>> 8))

-- The `ssize_t` that is returned, and the buffer as it is left; `none` is a NULL `buffer`.
unfoldable pub build_frame : Opcode → List ℕ → ℕ → Option (List ℕ) → ℕ → ℤ × Option (List ℕ)
unfolding fill_frame
build_frame opcode payload payload_len none buffer_len = (neg_ℕ mcuco_status_err_arg, none)
build_frame opcode payload payload_len (some buffer) buffer_len =
    if ltb protocol_max_payload payload_len
    then (neg_ℕ mcuco_status_err_arg, some buffer)
    else let frame_len = protocol_command_overhead + payload_len in
      if ltb buffer_len frame_len
      then (neg_ℕ mcuco_status_err_arg, some buffer)
      else (pos frame_len, some (fill_frame opcode payload payload_len buffer frame_len))
