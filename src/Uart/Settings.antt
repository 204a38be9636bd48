-- ===== src/Uart/Settings.antt =====
-- The settings that are asked for pass the checks, and the configuration succeeds with them.
use mcu_co_sdk.Common.{ℕ, refl, false, ◌!=◌, arith, ◌^◌, ◌<◌, ◌≡◌, sym, ap, ◌∙◌, bit_and, bit_or}
use mcu_co_sdk.Common.Bits.{bit_and-zero, bit_or-zero, zero-bit_or}
use mcu_co_sdk.Common.Bits.Masks.{
  zero-bit_and, bit_and_comm, bit_and_assoc, bit_and_or, bit_and-bit_or, complement-bit_and,
}
use mcu_co_sdk.Common.Int.{ℤ, pos}
use mcu_co_sdk.Os.{returned}
use mcu_co_sdk.System.{Termios, System}
use mcu_co_sdk.Uart.Open.{complement, raw_settings, claim_port, check_settings, configure_port}

bit_and_self : (a : ℕ) → bit_and a a ≡ a
bit_and_self a = ap (λ (t : ℕ). bit_and a t) (sym (bit_or-zero a)) ∙ bit_and-bit_or a 0

-- A field that was cleared and then set again reads as what it was set to.
field_set :
    (flags mask value : ℕ)
    → mask < 2 ^ 32
    → bit_and value mask ≡ value
    → bit_and (bit_or (bit_and flags (complement mask)) value) mask ≡ value
field_set flags mask value small inside =
    bit_and_or (bit_and flags (complement mask)) value mask
    ∙ ap (λ (t : ℕ). bit_or t (bit_and value mask))
        (bit_and_assoc flags (complement mask) mask
          ∙ ap (λ (t : ℕ). bit_and flags t)
              (complement-bit_and 32 mask mask small (bit_and_self mask))
          ∙ bit_and-zero flags)
    ∙ zero-bit_or (bit_and value mask)
    ∙ inside

-- A field that was cleared stays clear, whatever is cleared besides.
field_clear :
    (flags mask other sub : ℕ)
    → mask < 2 ^ 32
    → bit_and sub mask ≡ sub
    → bit_and (bit_and (bit_and flags (complement mask)) other) sub ≡ 0
field_clear flags mask other sub small inside =
    bit_and_assoc (bit_and flags (complement mask)) other sub
    ∙ ap (λ (t : ℕ). bit_and (bit_and flags (complement mask)) t) (bit_and_comm other sub)
    ∙ sym (bit_and_assoc (bit_and flags (complement mask)) sub other)
    ∙ ap (λ (t : ℕ). bit_and t other)
        (bit_and_assoc flags (complement mask) sub
          ∙ ap (λ (t : ℕ). bit_and flags t) (complement-bit_and 32 mask sub small inside)
          ∙ bit_and-zero flags)
    ∙ zero-bit_and other

-- What is documented of the flags and of the two functions that set a speed: a mask has 32 bits, `CS8`
-- is a value of the field `CSIZE` apart from `PARENB` and `CSTOPB`, and setting a speed, which may be
-- kept in the flags too, leaves these fields alone.
pub record TermiosLaws (sys : System) : Type 0 where
  pub csize_lt : sys.csize < 2 ^ 32
  pub control_lt : bit_or (bit_or sys.parenb sys.cstopb) sys.crtscts < 2 ^ 32
  pub cs8_inside : bit_and sys.cs8 sys.csize ≡ sys.cs8
  pub cs8_apart : bit_and sys.cs8 (bit_or sys.parenb sys.cstopb) ≡ 0
  pub cfsetispeed_fields :
      (t t' : Termios) (speed : ℕ)
      → sys.cfsetispeed t speed ≡ returned t'
      → (bit_and t'.c_cflag sys.csize ≡ bit_and t.c_cflag sys.csize)
        × (bit_and t'.c_cflag (bit_or sys.parenb sys.cstopb)
            ≡ bit_and t.c_cflag (bit_or sys.parenb sys.cstopb))
  pub cfsetospeed_fields :
      (t t' : Termios) (speed : ℕ)
      → sys.cfsetospeed t speed ≡ returned t'
      → (bit_and t'.c_cflag sys.csize ≡ bit_and t.c_cflag sys.csize)
        × (bit_and t'.c_cflag (bit_or sys.parenb sys.cstopb)
            ≡ bit_and t.c_cflag (bit_or sys.parenb sys.cstopb))
  pub cfsetospeed_speed :
      (t t' : Termios) (speed : ℕ)
      → sys.cfsetospeed t speed ≡ returned t'
      → sys.cfgetospeed t' ≡ speed

module _ (sys : System) (tl : TermiosLaws sys) where
  -- Eight data bits, no parity and one stop bit, whatever the terminal had.
  raw_settings_8n1 :
      (tty : Termios)
      → (bit_and (raw_settings sys tty).c_cflag sys.csize ≡ sys.cs8)
        × (bit_and (raw_settings sys tty).c_cflag (bit_or sys.parenb sys.cstopb) ≡ 0)
  unfolding raw_settings
  raw_settings_8n1 tty =
      let parity = bit_or sys.parenb sys.cstopb in
      let mask = bit_or parity sys.crtscts in
      let asked = bit_or (sys.cfmakeraw tty).c_cflag (bit_or sys.clocal sys.cread) in
      let cleared = bit_and (bit_and asked (complement mask)) (complement sys.csize) in
      (
        field_set (bit_and asked (complement mask)) sys.csize sys.cs8 tl.csize_lt tl.cs8_inside,
        bit_and_or cleared sys.cs8 parity
            ∙ ap (λ (t : ℕ). bit_or t (bit_and sys.cs8 parity))
                (field_clear asked mask (complement sys.csize) parity tl.control_lt
                  (bit_and-bit_or parity sys.crtscts))
            ∙ ap (λ (t : ℕ). bit_or 0 t) tl.cs8_apart,
      )

  -- Settings that pass the three checks let the port be claimed.
  check_settings_passes :
      (fd : ℤ) (t : Termios) (s : sys.State)
      → bit_and t.c_cflag sys.csize ≡ sys.cs8
      → bit_and t.c_cflag (bit_or sys.parenb sys.cstopb) ≡ 0
      → sys.cfgetospeed t ≡ sys.b115200
      → check_settings sys fd t s ≡ claim_port sys fd s
  unfolding check_settings
  check_settings_passes fd t s bits parity speed =
      let a : (bit_and t.c_cflag sys.csize != sys.cs8) ≡ false = ground arith in
      let b : (bit_and t.c_cflag (bit_or sys.parenb sys.cstopb) != 0) ≡ false = ground arith in
      let c : (sys.cfgetospeed t != sys.b115200) ≡ false = ground arith in rw (a, b, c) refl

  -- On a terminal with any settings: when the speeds can be set, the kernel takes the settings that
  -- are asked for and reports exactly these back, and it lets the port be claimed and its flags be
  -- cleared, then all checks pass and the configuration succeeds.
  pub configure_port_succeeds :
      (fd : ℤ) (tty t1 t2 : Termios) (s s1 s2 s3 s4 s5 : sys.State)
      → sys.tcgetattr fd s ≡ (returned tty, s1)
      → sys.cfsetispeed (raw_settings sys tty) sys.b115200 ≡ returned t1
      → sys.cfsetospeed t1 sys.b115200 ≡ returned t2
      → sys.tcsetattr fd t2 s1 ≡ (returned tt, s2)
      → sys.tcgetattr fd s2 ≡ (returned t2, s3)
      → sys.ioctl_tiocexcl fd s3 ≡ (returned tt, s4)
      → sys.fcntl_setfl fd 0 (sys.tcflush fd s4) ≡ (returned tt, s5)
      → configure_port sys fd s ≡ (pos 0, s5)
  unfolding configure_port claim_port
  configure_port_succeeds fd tty t1 t2 s s1 s2 s3 s4 s5 got in_speed out_speed set kept claimed
        cleared =
      let asked = raw_settings_8n1 tty in
      let in_fields = tl.cfsetispeed_fields (raw_settings sys tty) t1 sys.b115200 in_speed in
      let out_fields = tl.cfsetospeed_fields t1 t2 sys.b115200 out_speed in
      let passes =
        check_settings_passes fd t2 s3 (out_fields.0 ∙ in_fields.0 ∙ asked.0)
          (out_fields.1 ∙ in_fields.1 ∙ asked.1)
          (tl.cfsetospeed_speed t1 t2 sys.b115200 out_speed) in
      rw (got, in_speed, out_speed, set, kept) (passes ∙ rw (claimed, cleared) refl)
