-- ===== src/Examples/Runs.antt =====
-- The theorems about frames, the transport and the calls, at concrete data on a simulated port.
use mcu_co_sdk.Common.{ℕ, ◌≡◌, ◌≢◌, refl, List, [], ◌∷◌, ◌++◌, none, some, arith, drop}
use mcu_co_sdk.Common.Int.{pos, neg_ℕ}
use mcu_co_sdk.Values.{mcuco_status_ok, mcuco_status_err_arg}
use mcu_co_sdk.Crc16.{crc16_compute}
use mcu_co_sdk.Crc16.Fold.{crc16, crc16_compute-crc16}
use mcu_co_sdk.Crc16.Detection.{crc16_compute-single_byte}
use mcu_co_sdk.Endianess.{put_u16_le, put_u32_le, get_u16_le, get_u32_le}
use mcu_co_sdk.Endianess.RoundTrip.{get_u16_le-put_u16_le, get_u32_le-put_u32_le}
use mcu_co_sdk.Protocol.Defs.{Opcode, empty_response}
use mcu_co_sdk.Protocol.Build.{build_frame}
use mcu_co_sdk.Protocol.Build.Frame.{command_frame, build_frame-command_frame}
use mcu_co_sdk.Protocol.Commands.Request.{build, gpio_set, gpio_get}
use mcu_co_sdk.Protocol.Commands.Accepts.{build-command_frame, build-rejects}
use mcu_co_sdk.Protocol.Parse.{protocol_parse_response}
use mcu_co_sdk.Protocol.Parse.Reply.{
  reply_frame, reply_of, Accepted, parse-reply_frame, parse-Accepted,
}
use mcu_co_sdk.Uart.{uart_read, uart_write, now_ms}
use mcu_co_sdk.Uart.Reads.{Reads, uart_read-Reads}
use mcu_co_sdk.Uart.Writes.{Writes, uart_write-Writes}
use mcu_co_sdk.CommandTransport.{receive_response, transmit_command}
use mcu_co_sdk.CommandTransport.Receive.{Received, receive_response-Received}
use mcu_co_sdk.CommandTransport.Transmit.{Transmitted, transmit_command-Transmitted}
use mcu_co_sdk.Mcuco.{Mcuco, frame_array, exchange, status_from_response}
use mcu_co_sdk.Mcuco.Exchange.{Exchanged, exchange-Exchanged}
use mcu_co_sdk.Mcuco.Calls.{call}
use mcu_co_sdk.Mcuco.Results.{Called, call-Called}
use mcu_co_sdk.Mcuco.Rejects.{call-rejects}
use mcu_co_sdk.Examples.Host.{new_host}
use mcu_co_sdk.Examples.Device.{Wire, wire, wire_port, wire_supply}

abbrev pub handle : Mcuco
handle = record { fd = pos 3; timeout_ms = pos 1000 }

-- Two stray bytes, then an ACK with the level 1.
abbrev level_answer : List ℕ
level_answer = 0xa5 ∷ 2 ∷ 1 ∷ 1 ∷ 0xec ∷ 0x81 ∷ []

abbrev pub pin_high : Wire
pin_high = record { incoming = 7 ∷ 9 ∷ level_answer; handed = []; taken = []; host = new_host }

-- The check value of CRC-16/CCITT-FALSE.
crc_check : crc16_compute (some (49 ∷ 50 ∷ 51 ∷ 52 ∷ 53 ∷ 54 ∷ 55 ∷ 56 ∷ 57 ∷ [])) 9 ≡ 0x29b1
unfolding crc16_compute
crc_check = refl

level_answer-reply_frame : reply_frame 1 (1 ∷ []) ≡ level_answer
unfolding crc16 crc16_compute
level_answer-reply_frame = refl

-- A whole call: the level that the device reports.
gpio_get_run :
    call wire 100 (gpio_get 0 5) (some handle) (some 0) pin_high
    ≡ some (
      (mcuco_status_ok, some 1),
      record {
        incoming = [];
        handed = 7 ∷ 9 ∷ level_answer;
        taken = command_frame Opcode.gpio_read (0 ∷ 5 ∷ []);
        host = new_host;
      },
    )
unfolding call build exchange receive_response transmit_command uart_read uart_write now_ms
    protocol_parse_response status_from_response command_frame crc16 build_frame crc16_compute
gpio_get_run = refl

call-Called_example :
    Called wire 100 handle
      (wire_port (pos 3))
      (gpio_get 0 5)
      0
      pin_high
      (call wire 100 (gpio_get 0 5) (some handle) (some 0) pin_high)
call-Called_example =
    call-Called wire 100 handle (wire_port (pos 3)) (gpio_get 0 5) 0 pin_high (omega arith)
      (omega (arith, wire_supply (pos 3) pin_high))

call-rejects_example :
    call wire 100 (gpio_set 2 0 5) (some handle) (some 0) pin_high
    ≡ some ((mcuco_status_err_arg, some 0), pin_high)
call-rejects_example = call-rejects wire 100 (gpio_set 2 0 5) handle 0 pin_high (omega arith)

exchange-Exchanged_example :
    Exchanged wire 100 handle
      (wire_port (pos 3))
      (1 ∷ 2 ∷ [])
      none
      pin_high
      (exchange wire 100 handle (1 ∷ 2 ∷ 3 ∷ []) (pos 2) none pin_high)
exchange-Exchanged_example =
    exchange-Exchanged wire 100 handle (wire_port (pos 3)) (1 ∷ 2 ∷ 3 ∷ []) 2 none pin_high
      (omega arith) (omega arith) (omega (arith, wire_supply (pos 3) pin_high))

receive_response-Received_example :
    Received wire 100
      (pos 3)
      (wire_port (pos 3))
      empty_response
      pin_high
      (receive_response wire 100 (pos 3) (pos 1000) (some empty_response) pin_high)
receive_response-Received_example =
    receive_response-Received wire 100 (pos 3) (wire_port (pos 3)) (pos 1000) empty_response
      pin_high (omega (arith, wire_supply (pos 3) pin_high))

transmit_command-Transmitted_example :
    Transmitted wire 100
      (pos 3)
      (wire_port (pos 3))
      (1 ∷ 2 ∷ 3 ∷ [])
      2
      pin_high
      (transmit_command wire 100 (pos 3) (some (1 ∷ 2 ∷ 3 ∷ [])) 2 pin_high)
transmit_command-Transmitted_example =
    transmit_command-Transmitted wire 100 (pos 3) (wire_port (pos 3)) (1 ∷ 2 ∷ 3 ∷ []) 2 pin_high
      (omega arith) (omega arith) (omega (arith, wire_supply (pos 3) pin_high))

uart_read-Reads_example :
    Reads wire
      (pos 3)
      (wire_port (pos 3))
      (0 ∷ 0 ∷ 0 ∷ [])
      1
      0
      2
      pin_high
      (uart_read wire 100 (pos 3) (0 ∷ 0 ∷ 0 ∷ []) 1 2 (pos 50) pin_high)
uart_read-Reads_example =
    uart_read-Reads wire (pos 3) (wire_port (pos 3)) 100 (0 ∷ 0 ∷ 0 ∷ []) 1 2 (pos 50) pin_high
      (omega (arith, wire_supply (pos 3) pin_high))

uart_write-Writes_example :
    Writes wire
      (pos 3)
      (wire_port (pos 3))
      (1 ∷ 2 ∷ 3 ∷ [])
      0
      3
      pin_high
      (uart_write wire 100 (pos 3) (1 ∷ 2 ∷ 3 ∷ []) 3 pin_high)
uart_write-Writes_example =
    uart_write-Writes wire (pos 3) (wire_port (pos 3)) 100 (1 ∷ 2 ∷ 3 ∷ []) 3 pin_high (omega arith)
      (omega (arith, wire_supply (pos 3) pin_high))

build-command_frame_example :
    build (gpio_set 1 0 5) (some frame_array) 37
    ≡ (pos 8, some (command_frame Opcode.gpio_write (1 ∷ 0 ∷ 5 ∷ []) ++ drop 8 frame_array))
build-command_frame_example =
    build-command_frame (gpio_set 1 0 5) frame_array 37 (omega arith) (omega arith) (omega arith)

build-rejects_example : build (gpio_get 7 5) none 37 ≡ (neg_ℕ mcuco_status_err_arg, none)
build-rejects_example = build-rejects (gpio_get 7 5) none 37 (omega arith)

build_frame-command_frame_example :
    build_frame Opcode.probe [] 0 (some (9 ∷ 9 ∷ 9 ∷ 9 ∷ 9 ∷ 9 ∷ [])) 5
    ≡ (pos 5, some (command_frame Opcode.probe [] ++ (9 ∷ [])))
build_frame-command_frame_example =
    build_frame-command_frame Opcode.probe [] (9 ∷ 9 ∷ 9 ∷ 9 ∷ 9 ∷ 9 ∷ []) 5 (omega arith)
      (omega arith) (omega arith)

parse-reply_frame_example :
    protocol_parse_response (some (reply_frame 1 (1 ∷ []) ++ (4 ∷ []))) 7 (some empty_response)
    ≡ (mcuco_status_ok, some (reply_of 1 (1 ∷ []) empty_response))
parse-reply_frame_example =
    parse-reply_frame 1 (1 ∷ []) (4 ∷ []) 7 empty_response (omega arith) (omega arith)

level_answer_parses :
    protocol_parse_response (some level_answer) 6 (some empty_response)
    ≡ (mcuco_status_ok, some (reply_of 1 (1 ∷ []) empty_response))
unfolding protocol_parse_response crc16_compute
level_answer_parses = refl

parse-Accepted_example :
    Accepted level_answer 6 empty_response (some (reply_of 1 (1 ∷ []) empty_response))
parse-Accepted_example =
    parse-Accepted level_answer 6 empty_response (omega arith) (omega arith) level_answer_parses

crc16_compute-single_byte_example :
    crc16_compute (some (1 ∷ 5 ∷ 2 ∷ [])) 3 ≢ crc16_compute (some (1 ∷ 4 ∷ 2 ∷ [])) 3
crc16_compute-single_byte_example =
    crc16_compute-single_byte (1 ∷ []) (2 ∷ []) 5 4 (omega arith) (omega arith) (omega arith)

crc16_prefix_check : crc16_compute (some (1 ∷ 2 ∷ 3 ∷ [])) 2 ≡ crc16 (1 ∷ 2 ∷ [])
crc16_prefix_check = crc16_compute-crc16 (1 ∷ 2 ∷ 3 ∷ []) 2 (omega arith)

get_u16_le-put_u16_le_example :
    get_u16_le (put_u16_le (some (0 ∷ 0 ∷ 0 ∷ [])) 1000).1 (some 7) ≡ (pos 2, some 1000)
get_u16_le-put_u16_le_example =
    get_u16_le-put_u16_le (0 ∷ 0 ∷ 0 ∷ []) 1000 7 (omega arith) (omega arith)

get_u32_le-put_u32_le_example :
    get_u32_le (put_u32_le (some (0 ∷ 0 ∷ 0 ∷ 0 ∷ [])) 1000000).1 (some 7) ≡ (pos 4, some 1000000)
get_u32_le-put_u32_le_example =
    get_u32_le-put_u32_le (0 ∷ 0 ∷ 0 ∷ 0 ∷ []) 1000000 7 (omega arith) (omega arith)
