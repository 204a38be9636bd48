-- ===== src/Lib.antt =====
-- The mcu-co SDK: a host's library for a microcontroller that serves as its co-processor, over a
-- serial line, and the command-line tool on top of it.
--
-- A client calls a function of library/src/mcuco.c on a handle. The function has the frame of its
-- command made by library/src/protocol.c, sends it and waits for one response by
-- library/src/command_transport.c, which reads and writes the port by library/src/uart.c. Frames
-- carry the checksum of library/src/crc16.c and numbers in the order of library/src/endianess.c.
--
-- Which module models which part:
--   Common             C arrays as lists, casts and shifts, signed integers, the bit operations
--   Values             library/include/mcuco.h: status codes and field encodings, as numbers
--   Crc16              library/src/crc16.c; Crc16.Fold and Crc16.Detection: its loop, what it detects
--   Endianess          library/src/endianess.c; Endianess.RoundTrip
--   Protocol.Defs      library/include/protocol_defs.h, `protocol_response_t`
--   Protocol.Build     `build_frame`; Protocol.Build.Frame: the frame that it writes
--   Protocol.Commands  the sixteen builders; .Request: the commands as data; .Accepts
--   Protocol.Parse     `protocol_parse_response`; .Reply, .Damaged: the frames that it accepts
--   Os                 the system calls under library/src/uart.c, a parameter, and their laws
--                      .Keeps: what a computation keeps; .Ends: what it ends with
--   System             the other calls of the system and of the C library, a parameter; .Laws
--   Uart               `uart_read`, `uart_write`; .Trace, .Rounds, .Reads, .Writes, .Frame
--   Uart.Open          `configure_port`, `uart_open`, `uart_close`; Uart.Opened,
--                      Uart.Settings
--   CommandTransport   `receive_response`, `transmit_command`; .Exact, .Skip, .Decode,
--                      .Receive, .Transmit, .Frame; .Open: `open_port`, `close_port`
--   Mcuco              `exchange` and the calls; .Exchange, .Calls, .Answers, .Results, .Rejects,
--                      .Frame, .Steady
--   Mcuco.Handle       `mcuco_open`, `mcuco_close`; Mcuco.Lifecycle,
--                      Mcuco.Confirmed
--   Status             library/src/status.c, `mcuco_strerror`; Status.Distinct
--   Cli.Text           `strcmp`, `strtoul` and `%u`, as cli/commands.c uses them
--   Cli.Words          the parsers of cli/commands.c, `parse_value`, `mcuco_args_t`
--   Cli.Table          its table, `args_parse_mcuco`, the functions behind the rows
--   Cli                .Runs: running is a call; .Printed, .Ran: what is printed for it; .Numbers,
--                      .Bounds, .Rounds, .Accepted: what is accepted; .Spellings, .Typed: every
--                      request can be typed
--   Cli.Help           `mcuco_print_commands`, and `print_help` of cli/main.c
--   Cli.Options        `parse_timeout`, `parse_config` of cli/main.c; .Timeout, .Loop
--   Cli.Main           `main` of cli/main.c; .Leaks, .Serve, .Session
--   Demos              examples/, what the programs share; .Laws, .Steps, .Requests, .Closes
--   Demos.Blink        examples/blink.c; .Clean. Likewise Demos.IrqBind, Demos.Frequency and
--                      Demos.Breathe, with Demos.Breathe.Ramp and
--                      Demos.Breathe.Ladder
--   Examples           tests, and each theorem at concrete data
--
-- A pointer that may be NULL is an option, a pointer to an array the array as a list, and a function
-- that writes through a pointer returns what it leaves there. Enumerations of the interface are
-- numbers, since a caller can pass any. `int`, `long` and `ssize_t` are integers; `long` is taken to
-- be wide enough for a clock in milliseconds, and the casts of a time left to `int` wrap at 32 bits.
--
-- Code that calls the system is a function of the system's state to an option, `none` for a loop
-- that has used up its fuel. The record `Os` has the calls, and `Port` what is documented of them on
-- an open descriptor, with the two streams of bytes and a bound on what is still to come: the bytes
-- that the device will send and the calls that a signal will interrupt. One more round than that
-- bound is fuel enough for every loop that reads, with the length of the frame for one that writes.
--
-- In the command-line tool a word is the list of its characters, a function pointer of the table the
-- name of the function, and a run returns the text that it prints. `unsigned long` has 64 bits.
--
-- Opening, closing, the heap and the terminal are calls of the record `System`. `Laws` says what they
-- do to the open descriptors, the allocated handles and the terminals; nothing is asked of the time
-- at which they fail. `close` and `free` release what they are given, and a handle is its address
-- and what is stored there. `mcuco_open` gives a handle, or the value of `errno` beside NULL.
--
-- `getopt_long` is a parameter that may reorder the words and print; one more round than the options
-- that are to come is fuel enough for the loop over them. In the examples a read of the flag that the
-- signal handler sets is a step of the system, and so are the waits. A bound on how often the flag is
-- read unset stands for the user, who stops the program at some time; one more round than that is
-- fuel enough for the loops that wait for it, and 51 rounds for a ramp of 1000 tenths in steps of 20.
-- `install_signal_handlers` and the ways out are the same text in the four examples, and are mapped
-- to the first.
--
-- Not modelled: the tests; the versions that the build fills in; the signal handler itself, beyond
-- the flag that it sets.
pub mod Common
pub mod Crc16
pub mod Endianess
pub mod Values
pub mod Protocol
pub mod Os
pub mod System
pub mod Uart
pub mod CommandTransport
pub mod Mcuco
pub mod Status
pub mod Cli
pub mod Demos
mod Examples
