-- ===== src/Protocol/Parse.antt =====
-- `protocol_parse_response` of library/src/protocol.c. `none` is a NULL pointer; the call returns
-- its status and what it leaves behind `response`.
pub mod Reply
pub mod Damaged
use mcu_co_sdk.Common.{
  ℕ, ◌+◌, ◌-◌, ◌*◌, ◌%◌, ◌^◌, List, Option, none, some, Bool, not, ◌||◌, bit_or,
}
use mcu_co_sdk.Common.{ltb, ◌==◌, ◌!=◌, if◌then◌else◌, u16, ◌<<<◌, get_or, drop, copy_loop}
use mcu_co_sdk.Crc16.{crc16_compute}
use mcu_co_sdk.Values.{mcuco_status_ok, mcuco_status_err_arg, mcuco_status_err_bad_frame}
use mcu_co_sdk.Protocol.Defs.{
  Response, protocol_sof, protocol_min_response_frame, protocol_min_response_len,
  protocol_max_response_len, protocol_response_overhead, response_sof_idx, response_len_idx,
  response_ack_idx, response_data_idx,
}

abbrev pub Parsed : Type 0
Parsed = ℕ × Option Response

-- The checksum that a frame with the given LEN carries.
pub received_crc : List ℕ → ℕ → ℕ
received_crc frame len = u16 (
    bit_or (get_or frame (response_ack_idx + len) 0)
      (get_or frame (response_data_idx + len) 0 <<< 8))

-- The writes through `response`, of a frame that passed the checks.
pub fill_response : List ℕ → ℕ → Response → Response
unfolding copy_loop
fill_response frame len response = record response {
  ack = get_or frame response_ack_idx 0 != 0;
  data_len = len - 1;
  bytes = copy_loop (len - 1) 0 frame response_data_idx 0 response.bytes 0;
}

-- The checks from the one on LEN on.
pub check_frame : List ℕ → ℕ → Response → ℕ → Parsed
unfolding fill_response received_crc
check_frame frame frame_len response len =
    if ltb len protocol_min_response_len || ltb protocol_max_response_len len
    then (mcuco_status_err_bad_frame, some response)
    else if ltb frame_len (protocol_response_overhead + len)
    then (mcuco_status_err_bad_frame, some response)
    else if crc16_compute (some (drop response_len_idx frame)) (len + 1) != received_crc frame len
    then (mcuco_status_err_bad_frame, some response)
    else (mcuco_status_ok, some (fill_response frame len response))

unfoldable pub protocol_parse_response : Option (List ℕ) → ℕ → Option Response → Parsed
unfolding check_frame
protocol_parse_response none frame_len response = (mcuco_status_err_arg, response)
protocol_parse_response (some frame) frame_len none = (mcuco_status_err_arg, none)
protocol_parse_response (some frame) frame_len (some response) =
    if ltb frame_len protocol_min_response_frame || get_or frame response_sof_idx 0 != protocol_sof
    then (mcuco_status_err_bad_frame, some response)
    else check_frame frame frame_len response (get_or frame response_len_idx 0)
