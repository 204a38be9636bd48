-- ===== src/Examples/Sessions.antt =====
-- Opening, closing and the whole tool at concrete data on the simulated system.
use mcu_co_sdk.Common.{ℕ, ◌≡◌, refl, List, [], ◌∷◌, some, true, arith}
use mcu_co_sdk.System.{Termios}
use mcu_co_sdk.Common.Int.{pos}
use mcu_co_sdk.Os.{returned, failed}
use mcu_co_sdk.Os.Ends.{Ends}
use mcu_co_sdk.Uart.Open.{
  uart_open, uart_close, handle_open, configure_or_close, configure_port, raw_settings,
  check_settings, claim_port,
}
use mcu_co_sdk.Uart.Settings.{configure_port_succeeds}
use mcu_co_sdk.Uart.Opened.{Opens, uart_open-Opens}
use mcu_co_sdk.Mcuco.Handle.{Handle, mcuco_open, mcuco_close, handle_malloc, open_handle, confirm}
use mcu_co_sdk.Mcuco.Steady.{IsEnough, call-Ends}
use mcu_co_sdk.Mcuco.Confirmed.{Confirmed, mcuco_open-Confirmed}
use mcu_co_sdk.Mcuco.Lifecycle.{OpenEnds, mcuco_open-OpenEnds, mcuco_close-mcuco_open}
use mcu_co_sdk.Cli.Text.{codes}
use mcu_co_sdk.System.Laws.{Terminal}
use mcu_co_sdk.Crc16.{crc16_compute}
use mcu_co_sdk.Protocol.Build.{build_frame}
use mcu_co_sdk.Protocol.Parse.{protocol_parse_response}
use mcu_co_sdk.Uart.{now_ms, uart_read, uart_write}
use mcu_co_sdk.CommandTransport.{transmit_command, receive_response}
use mcu_co_sdk.CommandTransport.Open.{open_port, close_port}
use mcu_co_sdk.Mcuco.{exchange, mcuco_probe, status_from_response}
use mcu_co_sdk.Crc16.Fold.{crc16}
use mcu_co_sdk.Protocol.Defs.{Opcode}
use mcu_co_sdk.Protocol.Build.Frame.{command_frame}
use mcu_co_sdk.Protocol.Commands.{protocol_probe}
use mcu_co_sdk.Protocol.Commands.Request.{gpio_get}
use mcu_co_sdk.Os.Keeps.{IsKept}
use mcu_co_sdk.Mcuco.Calls.{call}
use mcu_co_sdk.Examples.Runs.{handle}
use mcu_co_sdk.Examples.Host.{Host, cooked, new_host}
use mcu_co_sdk.Examples.Device.{Wire, wire}
use mcu_co_sdk.Examples.Desktop.{desktop, desktop_termios, desktop_laws, desktop_supply}

-- The answers to the probe and to the reading of a level, and nothing more.
abbrev pub board : Wire
board = record {
  incoming = 0xa5 ∷ 5 ∷ 1 ∷ 77 ∷ 67 ∷ 85 ∷ 79 ∷ 0xc6 ∷ 0xbc ∷ 0xa5 ∷ 2 ∷ 1 ∷ 1 ∷ 0xec ∷ 0x81 ∷ [];
  handed = [];
  taken = [];
  host = new_host;
}

-- Nobody answers.
abbrev silent_board : Wire
silent_board = record board { incoming = [] }

abbrev pub device : List ℕ
device = codes "/dev/ttyACM0"

abbrev pub board_handle : Handle
board_handle = record { address = 4096; mcu = record { fd = pos 3; timeout_ms = pos 1000 } }

abbrev pub configured : Terminal
configured = record {
  settings = record {
    c_iflag = 0;
    c_oflag = 4;
    c_cflag = 0x8bd;
    c_lflag = 0x8a30;
    c_cc = 3 ∷ 28 ∷ 127 ∷ 21 ∷ 4 ∷ 0 ∷ 0 ∷ [];
    c_ispeed = 0x1002;
    c_ospeed = 0x1002;
  };
  exclusive = true;
  flags = 0;
}

abbrev opened_host : Host
opened_host = record {
  view = record { descriptors = pos 3 ∷ []; allocated = 4096 ∷ [] };
  terminal = configured;
  printed = [];
  patience = 2;
}

-- The board after the probe.
abbrev opened_board : Wire
opened_board = record {
  incoming = 0xa5 ∷ 2 ∷ 1 ∷ 1 ∷ 0xec ∷ 0x81 ∷ [];
  handed = 0xa5 ∷ 5 ∷ 1 ∷ 77 ∷ 67 ∷ 85 ∷ 79 ∷ 0xc6 ∷ 0xbc ∷ [];
  taken = command_frame Opcode.probe [];
  host = opened_host;
}

-- With a board that answers, there is a handle.
open_run :
    mcuco_open desktop 100 (some device) (pos 1000) board
    ≡ some (returned board_handle, opened_board)
unfolding mcuco_open handle_malloc open_handle confirm open_port uart_open handle_open
    configure_or_close configure_port raw_settings check_settings claim_port mcuco_probe mcuco_close
    close_port uart_close exchange receive_response transmit_command uart_read uart_write now_ms
    protocol_parse_response status_from_response build_frame crc16_compute protocol_probe
    command_frame crc16
open_run = refl

-- Without an answer there is `ETIMEDOUT`, and the descriptor and the memory are given back.
open_silent_run :
    mcuco_open desktop 100 (some device) (pos 1000) silent_board
    ≡ some (
      failed 110,
      record silent_board {
        taken = command_frame Opcode.probe [];
        host = record opened_host { view = record { descriptors = []; allocated = [] } };
      },
    )
unfolding mcuco_open handle_malloc open_handle confirm open_port uart_open handle_open
    configure_or_close configure_port raw_settings check_settings claim_port mcuco_probe mcuco_close
    close_port uart_close exchange receive_response transmit_command uart_read uart_write now_ms
    protocol_parse_response status_from_response build_frame crc16_compute protocol_probe
    command_frame crc16
open_silent_run = refl

uart_open-Opens_example : Opens desktop desktop_laws board (uart_open desktop device board)
uart_open-Opens_example = uart_open-Opens desktop desktop_laws device board

pub board-IsEnough : IsEnough desktop desktop_laws 100 board
board-IsEnough = λ d. omega (arith, desktop_supply d board)

mcuco_open-OpenEnds_example :
    OpenEnds desktop desktop_laws
      (pos 1000)
      board
      (mcuco_open desktop 100 (some device) (pos 1000) board)
mcuco_open-OpenEnds_example =
    mcuco_open-OpenEnds desktop desktop_laws 100 (some device) (pos 1000) board board-IsEnough

mcuco_close-mcuco_open_example :
    desktop_laws.view (mcuco_close desktop (some board_handle) opened_board)
    ≡ desktop_laws.view board
mcuco_close-mcuco_open_example =
    mcuco_close-mcuco_open desktop desktop_laws 100 (some device) (pos 1000) board opened_board
      board_handle open_run board-IsEnough

-- The calls on the port leave the rest of the system alone.
abbrev SameHost : Wire → Type 0
SameHost w = w.host ≡ new_host

SameHost-IsKept : IsKept wire (pos 3) SameHost
SameHost-IsKept = record {
  clock_gettime = λ w h. h;
  poll = λ t w h. h;
  read = λ n w h. h;
  write = λ bs w h. h;
}

call-Ends_example :
    Ends (λ _ w. SameHost w) (call wire 100 (gpio_get 0 5) (some handle) (some 0) board)
call-Ends_example =
    call-Ends desktop desktop_laws SameHost 100 handle (gpio_get 0 5) 0 board SameHost-IsKept
      (omega arith, omega arith) board-IsEnough refl

mcuco_open-Confirmed_example : Confirmed desktop desktop_laws (pos 3) opened_board
mcuco_open-Confirmed_example =
    mcuco_open-Confirmed desktop desktop_laws 100 (some device) (pos 1000) board opened_board
      board_handle board-IsEnough open_run

-- The configuration of a terminal that had other settings, call by call.
abbrev asked : Termios
asked = record (raw_settings desktop cooked) { c_ispeed = 0x1002 }

abbrev asked_both : Termios
asked_both = record asked { c_ospeed = 0x1002 }

abbrev set_board : Wire
set_board = (desktop.tcsetattr (pos 3) asked_both board).1

abbrev claimed_board : Wire
claimed_board = (desktop.ioctl_tiocexcl (pos 3) set_board).1

abbrev configured_board : Wire
configured_board = (desktop.fcntl_setfl (pos 3) 0 claimed_board).1

configure_port_succeeds_example : configure_port desktop (pos 3) board ≡ (pos 0, configured_board)
configure_port_succeeds_example =
    configure_port_succeeds desktop desktop_termios (pos 3) cooked asked asked_both board board
      set_board set_board claimed_board configured_board refl refl refl refl refl refl refl
