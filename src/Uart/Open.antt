-- ===== src/Uart/Open.antt =====
-- `configure_port`, `uart_open` and `uart_close` of library/src/uart.c. `tcflag_t` and `speed_t` are
-- `unsigned int`.
use mcu_co_sdk.Common.{ℕ, ◌-◌, ◌^◌, List, bit_and, bit_or, ◌!=◌, set, not, if◌then◌else◌}
use mcu_co_sdk.Common.Int.{ℤ, pos, neg_ℕ, is_neg, eq_ℤ}
use mcu_co_sdk.Os.{Call, failed, returned}
use mcu_co_sdk.System.{Termios, System}

-- `(tcflag_t)~mask`
abbrev pub complement : ℕ → ℕ
complement mask = 2 ^ 32 - 1 - mask

-- `if (call != 0) { return -errno; }`
abbrev pub or_errno : {S A : Type 0} → Call A × S → (A → S → ℤ × S) → ℤ × S
or_errno (failed errno, s) rest = (neg_ℕ errno, s)
or_errno (returned a, s) rest = rest a s

module _ (sys : System) where
  open sys use {State}

  -- The settings that are asked for.
  unfoldable pub raw_settings : Termios → Termios
  raw_settings tty =
      let tty = sys.cfmakeraw tty in
      let c_cflag = bit_or tty.c_cflag (bit_or sys.clocal sys.cread) in
      let c_cflag =
        bit_and c_cflag (complement (bit_or (bit_or sys.parenb sys.cstopb) sys.crtscts)) in
      let c_cflag = bit_and c_cflag (complement sys.csize) in
      let c_cflag = bit_or c_cflag sys.cs8 in
      record tty { c_cflag = c_cflag; c_cc = set (set tty.c_cc sys.vmin 0) sys.vtime 0 }

  -- From `TIOCEXCL` on.
  unfoldable pub claim_port : ℤ → State → ℤ × State
  claim_port fd s =
      or_errno (sys.ioctl_tiocexcl fd s)
        (λ _ s. or_errno (sys.fcntl_setfl fd 0 (sys.tcflush fd s)) (λ _ s. (pos 0, s)))

  -- From the checks of the settings that the terminal really has on.
  unfoldable pub check_settings : ℤ → Termios → State → ℤ × State
  unfolding claim_port
  check_settings fd actual s =
      if bit_and actual.c_cflag sys.csize != sys.cs8
      then (neg_ℕ sys.einval, s)
      else if bit_and actual.c_cflag (bit_or sys.parenb sys.cstopb) != 0
      then (neg_ℕ sys.einval, s)
      else if sys.cfgetospeed actual != sys.b115200
      then (neg_ℕ sys.einval, s)
      else claim_port fd s

  unfoldable pub configure_port : ℤ → State → ℤ × State
  unfolding raw_settings check_settings
  configure_port fd s = or_errno (sys.tcgetattr fd s) (λ tty s.
      or_errno (sys.cfsetispeed (raw_settings tty) sys.b115200, s)
        (λ tty s.
          or_errno (sys.cfsetospeed tty sys.b115200, s)
            (λ tty s.
              or_errno (sys.tcsetattr fd tty s)
                (λ _ s. or_errno (sys.tcgetattr fd s) (λ actual s. check_settings fd actual s)))))

  -- `open` has returned a descriptor.
  unfoldable pub configure_or_close : ℤ → State → ℤ × State
  unfolding configure_port
  configure_or_close fd s =
      let (status, s') = configure_port fd s in
      if not (eq_ℤ status (pos 0)) then (status, sys.close fd s') else (fd, s')

  -- What follows `open`.
  unfoldable pub handle_open : Call ℤ × State → ℤ × State
  unfolding configure_or_close
  handle_open (failed errno, s) = (neg_ℕ errno, s)
  handle_open (returned fd, s) = configure_or_close fd s

  -- The flags of the call of `open`.
  abbrev pub open_flags : ℕ
  open_flags = bit_or (bit_or sys.o_rdwr sys.o_noctty) sys.o_nonblock

  unfoldable pub uart_open : List ℕ → State → ℤ × State
  unfolding handle_open
  uart_open device_path s = handle_open (sys.open_path device_path open_flags s)

  unfoldable pub uart_close : ℤ → State → State
  uart_close fd s = if is_neg fd then s else sys.close fd s
