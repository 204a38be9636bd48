-- ===== src/Examples/Tool.antt =====
-- The whole tool at a concrete command line on the simulated system.
use mcu_co_sdk.Common.{◌≡◌, refl, length, List, [], ◌∷◌, none, some, arith}
use mcu_co_sdk.Common.{ℕ, Option, none}
use mcu_co_sdk.Crc16.{crc16_compute}
use mcu_co_sdk.Protocol.Build.{build_frame}
use mcu_co_sdk.Protocol.Commands.{protocol_probe, protocol_gpio_get}
use mcu_co_sdk.Protocol.Parse.{protocol_parse_response}
use mcu_co_sdk.Uart.{now_ms, uart_read, uart_write}
use mcu_co_sdk.Uart.Open.{
  uart_open, uart_close, handle_open, configure_or_close, configure_port, raw_settings,
  check_settings, claim_port,
}
use mcu_co_sdk.CommandTransport.{transmit_command, receive_response}
use mcu_co_sdk.CommandTransport.Open.{open_port, close_port}
use mcu_co_sdk.Mcuco.{exchange, mcuco_probe, mcuco_gpio_get, status_from_response}
use mcu_co_sdk.Mcuco.Handle.{mcuco_close, handle_malloc, open_handle, confirm}
use mcu_co_sdk.Status.{mcuco_strerror}
use mcu_co_sdk.Cli.Words.{parse_value, parse_port, parse_pin}
use mcu_co_sdk.Cli.Table.{args_parse_mcuco, find_command, parse_values, mcuco_run_command}
use mcu_co_sdk.Cli.Main.{run_words, run_on}
use mcu_co_sdk.Common.Int.{pos}
use mcu_co_sdk.Protocol.Commands.Request.{gpio_get}
use mcu_co_sdk.Os.Ends.{Ends}
use mcu_co_sdk.Mcuco.Handle.{mcuco_open}
use mcu_co_sdk.Cli.Text.{codes, strtoul, take_digits, skip_spaces, decimal}
use mcu_co_sdk.Cli.Words.{Word}
use mcu_co_sdk.Cli.Spellings.{words_of}
use mcu_co_sdk.Cli.Options.{default_config, parse_timeout, parse_options, parse_config}
use mcu_co_sdk.Cli.Options.Timeout.{IsTimeout, parse_timeout-IsTimeout, parse_timeout-decimal}
use mcu_co_sdk.Cli.Options.Loop.{Parsed, parse_config-Ends}
use mcu_co_sdk.Cli.Main.{Build, words_from, main}
use mcu_co_sdk.Cli.Main.Leaks.{Clean, main-Ends}
use mcu_co_sdk.Cli.Main.Session.{Told, main-words_of}
use mcu_co_sdk.Examples.Desktop.{desktop, desktop_laws, plain, plain_laws, plain_remaining}
use mcu_co_sdk.Examples.Host.{Host}
use mcu_co_sdk.Examples.Device.{Wire}
use mcu_co_sdk.Examples.Sessions.{configured, board, board-IsEnough}

-- A negative number of milliseconds that wraps around is accepted.
timeout_wraps : parse_timeout (codes "-18446744073709551596") ≡ some 20
unfolding parse_timeout strtoul take_digits skip_spaces
timeout_wraps = refl

timeout_too_long : parse_timeout (codes "18446744073709551616") ≡ none
unfolding parse_timeout strtoul take_digits skip_spaces
timeout_too_long = refl

parse_timeout-IsTimeout_example : IsTimeout (parse_timeout (codes "250")) (strtoul (codes "250")).0
parse_timeout-IsTimeout_example = parse_timeout-IsTimeout (codes "250")

parse_timeout-decimal_example : parse_timeout (decimal 250) ≡ some 250
parse_timeout-decimal_example = parse_timeout-decimal 250 (omega arith) (omega arith)

abbrev build : Build
build = record { mcu_co_cli_version = codes "1.0.0"; mcuco_version = codes "1.0.0" }

-- `mcu-co-cli gpio get A 5`
abbrev line : List Word
line = codes "mcu-co-cli" ∷ codes "gpio" ∷ codes "get" ∷ codes "A" ∷ codes "5" ∷ []

parse_config-Ends_example :
    Ends
      (Parsed desktop desktop_laws plain plain_laws board)
      (parse_config desktop plain 100 line board)
parse_config-Ends_example =
    parse_config-Ends desktop desktop_laws plain plain_laws 100 line board
      (omega (arith, plain_remaining line board))

main-Ends_example :
    Ends (Clean desktop desktop_laws board) (main desktop plain build 100 line board)
main-Ends_example =
    main-Ends desktop desktop_laws plain plain_laws build 100 line board board-IsEnough
      (omega (arith, plain_remaining line board))

options_read :
    parse_config desktop plain 100 line board ≡ some ((pos 1, line, default_config), board)
unfolding parse_config parse_options
options_read = refl

words_read : words_from (length line) (pos 1) line ≡ words_of (gpio_get 0 5)
unfolding decimal
words_read = refl

main-words_of_example :
    Told desktop desktop_laws 100
      (gpio_get 0 5)
      default_config
      board
      (main desktop plain build 100 line board)
main-words_of_example =
    main-words_of desktop desktop_laws 100 plain build (gpio_get 0 5) line line (pos 1)
      default_config board board (omega arith, omega arith) tt board-IsEnough options_read refl refl
      refl words_read

-- What the tool leaves of the answers and of the rest of the system.
abbrev left_of : Option (ℕ × Wire) → Option (ℕ × List ℕ × Host)
left_of none = none
left_of (some (code, w)) = some (code, w.incoming, w.host)

-- `mcu-co-cli gpio get A 5` on a board whose pin is high.
main_run :
    left_of (main desktop plain build 100 line board)
    ≡ some (
      0,
      [],
      record {
        view = record { descriptors = []; allocated = [] };
        terminal = configured;
        printed = codes "high\nSuccess\n";
        patience = 2;
      },
    )
unfolding main parse_config parse_options run_words run_on args_parse_mcuco find_command
    parse_values parse_value parse_port parse_pin strtoul take_digits skip_spaces mcuco_run_command
    mcuco_strerror mcuco_gpio_get mcuco_open handle_malloc open_handle confirm open_port uart_open
    handle_open configure_or_close configure_port raw_settings check_settings claim_port mcuco_probe
    mcuco_close close_port uart_close exchange receive_response transmit_command uart_read
    uart_write now_ms protocol_parse_response status_from_response build_frame crc16_compute
    protocol_probe protocol_gpio_get
main_run = refl
