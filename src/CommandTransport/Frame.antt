-- ===== src/CommandTransport/Frame.antt =====
-- What the command transport leaves alone: all that the four system calls leave alone.
use mcu_co_sdk.Common.{
  ℕ, zero, suc, List, Option, none, some, Bool, true, false, ◌!=◌, get_or, if◌then◌else◌,
}
use mcu_co_sdk.Common.Int.{ℤ}
use mcu_co_sdk.Values.{mcuco_status_ok}
use mcu_co_sdk.Protocol.Defs.{Response, protocol_sof, response_sof_idx}
use mcu_co_sdk.Os.{Os}
use mcu_co_sdk.Os.Keeps.{IsKept, Keeps, Kept, kept_rules}
use mcu_co_sdk.Uart.Frame.{now_ms-Kept, uart_read-Kept, uart_write-Kept}
use mcu_co_sdk.CommandTransport.{
  read_exactly, skip_to_sof, receive_body, receive_len, receive_response, transmit_command,
}

module _ (os : Os) (fd : ℤ) (I : os.State → Type 0) (kept : IsKept os fd I) (fuel : ℕ) where
  read_exactly-Kept :
      (frame : List ℕ) (at len : ℕ) (deadline_ms : ℤ)
      → Kept I (read_exactly os fuel fd frame at len deadline_ms)
  unfolding read_exactly
  read_exactly-Kept frame at len deadline_ms = search (kept_rules, now_ms-Kept, uart_read-Kept)

  skip_to_sof-Keeps :
      (rounds : ℕ) (frame : List ℕ) (deadline_ms : ℤ) (s : os.State)
      → I s
      → Keeps I (skip_to_sof os fuel fd rounds frame deadline_ms s)
  unfolding skip_to_sof
  skip_to_sof-Keeps zero frame deadline_ms s h = tt
  skip_to_sof-Keeps (suc rounds) frame deadline_ms s h =
      after (read_exactly os fuel fd frame response_sof_idx 1 deadline_ms s)
        ((read_exactly-Kept frame response_sof_idx 1 deadline_ms).at s h)
        (λ frame' s' k. skip_to_sof-Keeps rounds frame' deadline_ms s' k)
    where
      chosen :
          (t u : Bool) (a b : ℕ × List ℕ) (s' : os.State) (more : Option ((ℕ × List ℕ) × os.State))
          → I s'
          → Keeps I more
          → Keeps I (if t then some (a, s') else if u then more else some (b, s'))
      chosen true u a b s' more k m = k
      chosen false true a b s' more k m = m
      chosen false false a b s' more k m = k

      after :
          (r : Option ((ℕ × List ℕ) × os.State))
          → Keeps I r
          → ((frame' : List ℕ) (s' : os.State)
              → I s'
              → Keeps I (skip_to_sof os fuel fd rounds frame' deadline_ms s'))
          → Keeps I (elim r as (λ r. Option ((ℕ × List ℕ) × os.State)) [
            | none ↦ none
            | some ((status, frame'), s') ↦
                let more = skip_to_sof os fuel fd rounds frame' deadline_ms s' in
                if status != mcuco_status_ok
                then some ((status, frame'), s')
                else if get_or frame' response_sof_idx 0 != protocol_sof
                then more
                else some ((mcuco_status_ok, frame'), s')
          ])
      after none k rest = tt
      after (some ((status, frame'), s')) k rest = chosen _ _ _ _ s' _ k (rest frame' s' k)

  skip_to_sof-Kept :
      (rounds : ℕ) (frame : List ℕ) (deadline_ms : ℤ)
      → Kept I (skip_to_sof os fuel fd rounds frame deadline_ms)
  skip_to_sof-Kept rounds frame deadline_ms = record {
    at = skip_to_sof-Keeps rounds frame deadline_ms;
  }

  receive_body-Kept :
      (frame : List ℕ) (deadline_ms : ℤ) (response : Response) (len : ℕ)
      → Kept I (receive_body os fuel fd frame deadline_ms response len)
  unfolding receive_body
  receive_body-Kept frame deadline_ms response len = search (kept_rules, read_exactly-Kept)

  receive_len-Kept :
      (frame : List ℕ) (deadline_ms : ℤ) (response : Response)
      → Kept I (receive_len os fuel fd frame deadline_ms response)
  unfolding receive_len
  receive_len-Kept frame deadline_ms response =
      search (kept_rules, read_exactly-Kept, receive_body-Kept)

  pub receive_response-Kept :
      (timeout_ms : ℤ) (response : Option Response)
      → Kept I (receive_response os fuel fd timeout_ms response)
  unfolding receive_response
  receive_response-Kept timeout_ms none = search kept_rules
  receive_response-Kept timeout_ms (some response) =
      search (kept_rules, now_ms-Kept, skip_to_sof-Kept, receive_len-Kept)

  pub transmit_command-Kept :
      (frame : Option (List ℕ)) (frame_len : ℕ)
      → Kept I (transmit_command os fuel fd frame frame_len)
  unfolding transmit_command
  transmit_command-Kept none frame_len = search kept_rules
  transmit_command-Kept (some frame) frame_len = search (kept_rules, uart_write-Kept)
