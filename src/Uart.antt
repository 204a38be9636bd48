-- ===== src/Uart.antt =====
-- library/src/uart.c and library/include/uart.h: exact reads and writes on a serial port.
pub mod Open
pub mod Opened
pub mod Settings
pub mod Trace
pub mod Frame
pub mod Rounds
pub mod Reads
pub mod Writes
use mcu_co_sdk.Common.{
  ℕ, zero, suc, ◌+◌, ◌-◌, ◌*◌, ◌/◌, List, [], ◌∷◌, Option, none, some, Bool, true, false, ◌||◌,
}
use mcu_co_sdk.Common.{ltb, ◌==◌, if◌then◌else◌, length, drop, take, overwrite}
use mcu_co_sdk.Common.Int.{ℤ, pos, neg_ℕ, ◌+ℤ◌, ◌-ℤ◌, is_nonpos, to_int}
use mcu_co_sdk.Os.{Call, failed, returned, Polled, poll_failed, no_event, event, Os}

module _ (os : Os) where
  open os use {State, eintr, eagain, etimedout, enotconn}

  unfoldable pub now_ms : State → ℤ × State
  now_ms s =
      let ((tv_sec, tv_nsec), s') = os.clock_gettime s in
      (pos (tv_sec * 1000 + tv_nsec / 1000000), s')

  -- One round of a loop: go on, with the count of bytes and the buffer, or return a value.
  pub data ReadRound : Type 0 where
    again : ℕ → List ℕ → State → ReadRound
    stop : ℤ → List ℕ → State → ReadRound

  -- The buffer of a read is the part of the array `buf` from `at` on.
  module _ (fd : ℤ) (at len : ℕ) (deadline_ms : ℤ) where
    -- What follows `read`.
    pub handle_read : ℕ → List ℕ → Call (List ℕ) × State → ReadRound
    handle_read total_read buf (failed errno, s) =
        if errno == eintr || errno == eagain
        then again total_read buf s
        else stop (neg_ℕ errno) buf s
    handle_read total_read buf (returned [], s) = stop (neg_ℕ enotconn) buf s
    handle_read total_read buf (returned (b ∷ bs), s) =
        again (total_read + length (b ∷ bs)) (overwrite buf (at + total_read) (b ∷ bs)) s

    -- What follows `poll`.
    pub handle_poll : ℕ → List ℕ → Polled × State → ReadRound
    handle_poll total_read buf (poll_failed errno, s) =
        if errno == eintr then again total_read buf s else stop (neg_ℕ errno) buf s
    handle_poll total_read buf (no_event, s) = stop (neg_ℕ etimedout) buf s
    handle_poll total_read buf (event false, s) = stop (neg_ℕ enotconn) buf s
    handle_poll total_read buf (event true, s) =
        handle_read total_read buf (os.read fd (len - total_read) s)

    -- The body of the loop.
    pub read_round : ℕ → List ℕ → State → ReadRound
    read_round total_read buf s =
        let (now, s') = now_ms s in
        let time_left_ms = deadline_ms -ℤ now in
        if is_nonpos time_left_ms
        then stop (neg_ℕ etimedout) buf s'
        else handle_poll total_read buf (os.poll fd (to_int time_left_ms) s')

    pub read_loop : ℕ → ℕ → List ℕ → State → Option ((ℤ × List ℕ) × State)
    read_loop zero total_read buf s = none
    read_loop (suc fuel) total_read buf s = elim (ltb total_read len) [
      | true ↦ elim (read_round total_read buf s) [
        | again n b s' ↦ read_loop fuel n b s'
        | stop r b s' ↦ some ((r, b), s')
      ]
      | false ↦ some ((pos total_read, buf), s)
    ]

  -- The value that is returned and the array as it is left.
  unfoldable pub uart_read : ℕ → ℤ → List ℕ → ℕ → ℕ → ℤ → State → Option ((ℤ × List ℕ) × State)
  unfolding read_loop read_round handle_poll handle_read now_ms
  uart_read fuel fd buf at len timeout_ms s =
      let (now, s') = now_ms s in read_loop fd at len (now +ℤ timeout_ms) fuel 0 buf s'

  pub data WriteRound : Type 0 where
    again : ℕ → State → WriteRound
    stop : ℤ → State → WriteRound

  -- What follows `write`.
  pub handle_write : ℕ → Call ℕ × State → WriteRound
  handle_write total_written (failed errno, s) =
      if errno == eintr then again total_written s else stop (neg_ℕ errno) s
  handle_write total_written (returned bytes_written, s) = again (total_written + bytes_written) s

  pub write_loop : ℕ → ℤ → List ℕ → ℕ → ℕ → State → Option (ℤ × State)
  write_loop zero fd buf len total_written s = none
  write_loop (suc fuel) fd buf len total_written s = elim (ltb total_written len) [
    | true ↦
        elim (handle_write total_written
          (os.write fd (take (len - total_written) (drop total_written buf)) s)) [
            | again n s' ↦ write_loop fuel fd buf len n s'
            | stop r s' ↦ some (r, s')
          ]
    | false ↦ some (pos total_written, s)
  ]

  unfoldable pub uart_write : ℕ → ℤ → List ℕ → ℕ → State → Option (ℤ × State)
  unfolding write_loop handle_write
  uart_write fuel fd buf len s = write_loop fuel fd buf len 0 s
