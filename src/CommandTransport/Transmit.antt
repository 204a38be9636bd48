-- ===== src/CommandTransport/Transmit.antt =====
-- `transmit_command` against the stream of bytes that the port takes.
use mcu_co_sdk.Common.{ℕ, ◌+◌, ◌≤◌, ◌<◌, ◌≡◌, refl, ◌⊎◌, inl, inr, arith}
use mcu_co_sdk.Common.{List, Option, some, false, length, take, ◌==◌}
use mcu_co_sdk.Common.Int.{ℤ}
use mcu_co_sdk.Values.{mcuco_status_ok, mcuco_status_err_io}
use mcu_co_sdk.Os.{Os, Port, ◌>>=◌}
use mcu_co_sdk.Uart.Writes.{Taken, uart_write-Writes}
use mcu_co_sdk.CommandTransport.{transmit_command}

module _ (os : Os) (fuel : ℕ) (fd : ℤ) (port : Port os fd) where
  -- The call ended; the port took the first `count` bytes of the frame.
  pub record Transmitted (frame : List ℕ) (frame_len : ℕ) (s : os.State)
      (result : Option (ℕ × os.State)) : Type 0 where
    pub status : ℕ
    pub count : ℕ
    pub after : os.State
    pub returns : result ≡ some (status, after)
    pub taken : Taken os fd port s after (take count frame)
    pub outcome :
        ((status ≡ mcuco_status_ok) × (count ≡ frame_len))
        ⊎ ((status ≡ mcuco_status_err_io) × (count < frame_len))

  -- A frame that is not empty, in an array that holds it, and fuel for its bytes and every signal:
  -- the call ends. It succeeds when the port has taken the whole frame in order, and reports a
  -- failed link when it has taken less; it reads nothing.
  pub transmit_command-Transmitted :
      (frame : List ℕ) (frame_len : ℕ) (s : os.State)
      → 0 < frame_len
      → frame_len ≤ length frame
      → port.supply s + frame_len < fuel
      → Transmitted frame frame_len s (transmit_command os fuel fd (some frame) frame_len s)
  unfolding transmit_command
  transmit_command-Transmitted frame frame_len s some_bytes fits enough =
      let w = uart_write-Writes os fd port fuel frame frame_len s fits enough in
      let nonempty : (frame_len == 0) ≡ false = ground arith in
      rw nonempty (
        rw (w.returns, ◌>>=◌)
          (elim w.outcome [
            | inl (all, n) ↦ rw all (record {
              status = mcuco_status_ok;
              count = w.count;
              after = w.after;
              returns = refl;
              taken = w.taken;
              outcome = inl (refl, omega arith);
            })
            | inr (bad, n) ↦ rw bad (record {
              status = mcuco_status_err_io;
              count = w.count;
              after = w.after;
              returns = refl;
              taken = w.taken;
              outcome = inr (refl, omega arith);
            })
          ]))
