-- ===== src/CommandTransport/Open.antt =====
-- `open_port` and `close_port` of library/src/command_transport.c.
use mcu_co_sdk.Common.{ℕ, List}
use mcu_co_sdk.Common.Int.{ℤ}
use mcu_co_sdk.System.{System}
use mcu_co_sdk.Uart.Open.{uart_open, uart_close}

module _ (sys : System) where
  open sys use {State}

  unfoldable pub open_port : List ℕ → State → ℤ × State
  open_port device_path s = uart_open sys device_path s

  unfoldable pub close_port : ℤ → State → State
  close_port fd s = uart_close sys fd s
