-- ===== src/Values.antt =====
-- library/include/mcuco.h: the status codes and the encodings of the fields. The enumerations are
-- `unsigned int` in C and a caller can pass any number, so a value of one is a number here.
use Prim.Native.Nat.{ℕ}

abbrev pub mcuco_status_ok : ℕ
mcuco_status_ok = 0

-- Reported by the MCU.
abbrev pub mcuco_status_err : ℕ
mcuco_status_err = 1

abbrev pub mcuco_status_err_invalid_arg : ℕ
mcuco_status_err_invalid_arg = 2

abbrev pub mcuco_status_err_invalid_pin : ℕ
mcuco_status_err_invalid_pin = 3

abbrev pub mcuco_status_err_invalid_state : ℕ
mcuco_status_err_invalid_state = 4

abbrev pub mcuco_status_err_not_init : ℕ
mcuco_status_err_not_init = 5

abbrev pub mcuco_status_err_busy : ℕ
mcuco_status_err_busy = 6

abbrev pub mcuco_status_err_timeout : ℕ
mcuco_status_err_timeout = 7

abbrev pub mcuco_status_err_unsupported : ℕ
mcuco_status_err_unsupported = 8

abbrev pub mcuco_status_err_empty : ℕ
mcuco_status_err_empty = 9

abbrev pub mcuco_status_err_full : ℕ
mcuco_status_err_full = 10

-- Raised by the library.
abbrev pub mcuco_status_err_arg : ℕ
mcuco_status_err_arg = 0x80

abbrev pub mcuco_status_err_io : ℕ
mcuco_status_err_io = 0x81

abbrev pub mcuco_status_err_no_response : ℕ
mcuco_status_err_no_response = 0x82

abbrev pub mcuco_status_err_bad_frame : ℕ
mcuco_status_err_bad_frame = 0x83

abbrev pub mcuco_status_err_not_open : ℕ
mcuco_status_err_not_open = 0x84

abbrev pub port_a : ℕ
port_a = 0

abbrev pub port_c : ℕ
port_c = 2

abbrev pub port_g : ℕ
port_g = 6

abbrev pub dir_input : ℕ
dir_input = 0

abbrev pub dir_output : ℕ
dir_output = 1

abbrev pub level_low : ℕ
level_low = 0

abbrev pub level_high : ℕ
level_high = 1

abbrev pub edge_off : ℕ
edge_off = 0

abbrev pub edge_rising : ℕ
edge_rising = 1

abbrev pub edge_falling : ℕ
edge_falling = 2

abbrev pub edge_both : ℕ
edge_both = 3

abbrev pub action_low : ℕ
action_low = 0

abbrev pub action_high : ℕ
action_high = 1

abbrev pub action_toggle : ℕ
action_toggle = 2

abbrev pub pol_active_high : ℕ
pol_active_high = 0

abbrev pub pol_active_low : ℕ
pol_active_low = 1

abbrev pub pin_max : ℕ
pin_max = 15

abbrev pub group_max : ℕ
group_max = 2

-- Tenths of a percent.
abbrev pub duty_max : ℕ
duty_max = 1000

-- Hz
abbrev pub freq_min : ℕ
freq_min = 1

abbrev pub freq_max : ℕ
freq_max = 1000000
