-- ===== src/CommandTransport.antt =====
-- library/src/command_transport.c and library/include/command_transport.h: one command out, one
-- response back. Its `now_ms` has the text of the one in library/src/uart.c.
pub mod Exact
pub mod Frame
pub mod Open
pub mod Skip
pub mod Decode
pub mod Receive
pub mod Transmit
use mcu_co_sdk.Common.{ℕ, zero, suc, ◌+◌, List, [], Option, none, some, Bool, true, false, ◌||◌}
use mcu_co_sdk.Common.{ltb, ◌==◌, ◌!=◌, not, if◌then◌else◌, get_or, replicate}
use mcu_co_sdk.Common.Int.{ℤ, pos, neg_ℕ, ◌+ℤ◌, ◌-ℤ◌, is_neg, is_nonpos, eq_ℤ, to_int}
use mcu_co_sdk.Values.{
  mcuco_status_ok, mcuco_status_err_arg, mcuco_status_err_io, mcuco_status_err_no_response,
  mcuco_status_err_bad_frame,
}
use mcu_co_sdk.Protocol.Defs.{
  Response, protocol_sof, protocol_max_response_frame, protocol_min_response_len,
  protocol_max_response_len, protocol_response_overhead, response_sof_idx, response_len_idx,
  response_ack_idx,
}
use mcu_co_sdk.Protocol.Parse.{protocol_parse_response}
use mcu_co_sdk.Os.{Os, M, pure, lift, ◌>>=◌}
use mcu_co_sdk.Uart.{now_ms, uart_read, uart_write}

module _ (os : Os) (fuel : ℕ) (fd : ℤ) where
  open os use {State}

  -- The status for the value of `uart_read`.
  pub read_status : ℤ → ℕ
  read_status bytes_read =
      if eq_ℤ bytes_read (neg_ℕ os.etimedout)
      then mcuco_status_err_no_response
      else if is_neg bytes_read
      then mcuco_status_err_io
      else mcuco_status_ok

  -- The status, and the frame as it is left; the bytes go to `&frame[at]`.
  pub read_exactly : List ℕ → ℕ → ℕ → ℤ → M State (ℕ × List ℕ)
  read_exactly frame at len deadline_ms = do
    now ← lift (now_ms os)
    let time_left_ms = deadline_ms -ℤ now
    if is_nonpos time_left_ms
        then pure (mcuco_status_err_no_response, frame)
        else (uart_read os fuel fd frame at len (to_int time_left_ms) >>= λ (bytes_read, frame').
            pure (read_status bytes_read, frame'))

  -- The loop that discards what stands before SOF.
  pub skip_to_sof : ℕ → List ℕ → ℤ → M State (ℕ × List ℕ)
  skip_to_sof zero frame deadline_ms s = none
  skip_to_sof (suc rounds) frame deadline_ms s =
      elim (read_exactly frame response_sof_idx 1 deadline_ms s) [
        | none ↦ none
        | some ((status, frame'), s') ↦
            let more = skip_to_sof rounds frame' deadline_ms s' in
            if status != mcuco_status_ok
            then some ((status, frame'), s')
            else if get_or frame' response_sof_idx 0 != protocol_sof
            then more
            else some ((mcuco_status_ok, frame'), s')
      ]

  -- From `frame` on: the rest of the frame once its LEN is known, and its decoding.
  pub receive_body : List ℕ → ℤ → Response → ℕ → M State (ℕ × Option Response)
  receive_body frame deadline_ms response len =
      if ltb len protocol_min_response_len || ltb protocol_max_response_len len
      then pure (mcuco_status_err_bad_frame, some response)
      else do
        let remaining = len + 2
        (status, frame') ← read_exactly frame response_ack_idx remaining deadline_ms
        if status != mcuco_status_ok
            then pure (status, some response)
            else pure (
                protocol_parse_response (some frame') (protocol_response_overhead + len)
                  (some response))

  -- From the read of LEN on.
  pub receive_len : List ℕ → ℤ → Response → M State (ℕ × Option Response)
  receive_len frame deadline_ms response = do
    (status, frame') ← read_exactly frame response_len_idx 1 deadline_ms
    if status != mcuco_status_ok
        then pure (status, some response)
        else receive_body frame' deadline_ms response (get_or frame' response_len_idx 0)

  -- The status, and what is left behind `response`.
  unfoldable pub receive_response : ℤ → Option Response → M State (ℕ × Option Response)
  unfolding receive_len receive_body skip_to_sof read_exactly read_status
  receive_response timeout_ms none = pure (mcuco_status_err_arg, none)
  receive_response timeout_ms (some response) = do
    now ← lift (now_ms os)
    let deadline_ms = now +ℤ timeout_ms
    let frame : List ℕ = replicate protocol_max_response_frame 0
    (status, frame') ← skip_to_sof fuel frame deadline_ms
    if status != mcuco_status_ok
        then pure (status, some response)
        else receive_len frame' deadline_ms response

  -- `none` is a NULL `frame`.
  unfoldable pub transmit_command : Option (List ℕ) → ℕ → M State ℕ
  transmit_command none frame_len = pure mcuco_status_err_arg
  transmit_command (some frame) frame_len = if frame_len == 0 then pure mcuco_status_err_arg else do
    written ← uart_write os fuel fd frame frame_len
    pure (if is_neg written then mcuco_status_err_io else mcuco_status_ok)
