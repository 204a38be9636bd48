-- ===== src/System.antt =====
-- The rest of the operating system and of the C library under the SDK: the calls that open,
-- configure and close a port, the heap and the output. They are a parameter of the model; their
-- documented behaviour is in System/Laws.antt.
pub mod Laws
use mcu_co_sdk.Common.{ℕ, Bool, List}
use mcu_co_sdk.Common.Int.{ℤ}
use mcu_co_sdk.Os.{Call, Os}

-- `struct termios` of <termios.h>
pub record Termios : Type 0 where
  pub c_iflag : ℕ
  pub c_oflag : ℕ
  pub c_cflag : ℕ
  pub c_lflag : ℕ
  pub c_cc : List ℕ
  pub c_ispeed : ℕ
  pub c_ospeed : ℕ

-- The two output streams.
pub data Stream : Type 0 where
  stdout stderr : Stream

pub record System : Type 1 where
  pub os : Os
  pub open os use {State, etimedout}
  -- <errno.h>
  pub einval : ℕ
  pub eproto : ℕ
  -- <fcntl.h>
  pub o_rdwr : ℕ
  pub o_noctty : ℕ
  pub o_nonblock : ℕ
  -- <termios.h>
  pub clocal : ℕ
  pub cread : ℕ
  pub parenb : ℕ
  pub cstopb : ℕ
  pub crtscts : ℕ
  pub csize : ℕ
  pub cs8 : ℕ
  pub b115200 : ℕ
  pub vmin : ℕ
  pub vtime : ℕ
  -- `open` of a path with flags.
  pub open_path : List ℕ → ℕ → State → Call ℤ × State
  pub close : ℤ → State → State
  pub tcgetattr : ℤ → State → Call Termios × State
  -- `tcsetattr` with `TCSANOW`.
  pub tcsetattr : ℤ → Termios → State → Call (Unit {0}) × State
  pub cfmakeraw : Termios → Termios
  pub cfsetispeed : Termios → ℕ → Call Termios
  pub cfsetospeed : Termios → ℕ → Call Termios
  pub cfgetospeed : Termios → ℕ
  -- `ioctl` with `TIOCEXCL`.
  pub ioctl_tiocexcl : ℤ → State → Call (Unit {0}) × State
  -- `tcflush` with `TCIFLUSH`.
  pub tcflush : ℤ → State → State
  -- `fcntl` with `F_SETFL`.
  pub fcntl_setfl : ℤ → ℕ → State → Call (Unit {0}) × State
  -- `malloc` of a handle, and its address.
  pub malloc : State → Call ℕ × State
  pub free : ℕ → State → State
  pub print : Stream → List ℕ → State → State
