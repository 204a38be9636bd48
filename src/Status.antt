-- ===== src/Status.antt =====
-- library/src/status.c: the message for a status.
pub mod Distinct
use mcu_co_sdk.Common.{ℕ, List, ◌==◌, if◌then◌else◌}
use mcu_co_sdk.Cli.Text.{codes}
use mcu_co_sdk.Values.{
  mcuco_status_ok, mcuco_status_err, mcuco_status_err_invalid_arg, mcuco_status_err_invalid_pin,
  mcuco_status_err_invalid_state, mcuco_status_err_not_init, mcuco_status_err_busy,
  mcuco_status_err_timeout, mcuco_status_err_unsupported, mcuco_status_err_empty,
  mcuco_status_err_full, mcuco_status_err_arg, mcuco_status_err_io, mcuco_status_err_no_response,
  mcuco_status_err_bad_frame, mcuco_status_err_not_open,
}

-- The message, as its characters.
unfoldable pub mcuco_strerror : ℕ → List ℕ
mcuco_strerror status =
    if status == mcuco_status_ok
    then codes "Success"
    else if status == mcuco_status_err
    then codes "Unspecified failure on the MCU"
    else if status == mcuco_status_err_invalid_arg
    then codes "The MCU rejected a field as out of range"
    else if status == mcuco_status_err_invalid_pin
    then codes "Pin number out of range, or a reserved pin"
    else if status == mcuco_status_err_invalid_state
    then codes "The pin is not configured for this operation"
    else if status == mcuco_status_err_not_init
    then codes "The peripheral was never brought up"
    else if status == mcuco_status_err_busy
    then codes "The resource is already in use"
    else if status == mcuco_status_err_timeout
    then codes "MCU hardware did not respond in time"
    else if status == mcuco_status_err_unsupported
    then codes "Unknown opcode, or a request the hardware cannot satisfy"
    else if status == mcuco_status_err_empty
    then codes "No data available on the MCU"
    else if status == mcuco_status_err_full
    then codes "No space available on the MCU"
    else if status == mcuco_status_err_arg
    then codes "An argument was rejected before anything was sent"
    else if status == mcuco_status_err_io
    then codes "Reading or writing the serial port failed"
    else if status == mcuco_status_err_no_response
    then codes "No response before the timeout, or the MCU rejected the frame"
    else if status == mcuco_status_err_bad_frame
    then codes "The response was malformed or failed its checksum"
    else if status == mcuco_status_err_not_open
    then codes "The connection is not open"
    else codes "Unknown status code"
