-- ===== src/Mcuco/Handle.antt =====
-- `mcuco_open`, `mcuco_close` and `mcuco_version` of library/src/mcuco.c. A handle is its address
-- and what is stored there; `mcuco_open` gives it, or NULL and `errno`.
use mcu_co_sdk.Common.{ℕ, List, Option, none, some, ◌==◌, ◌!=◌, if◌then◌else◌}
use mcu_co_sdk.Common.Int.{ℤ, neg_part, is_neg}
use mcu_co_sdk.Values.{mcuco_status_ok, mcuco_status_err_no_response}
use mcu_co_sdk.Os.{Call, failed, returned, M, pure, lift, ◌>>=◌}
use mcu_co_sdk.System.{System}
use mcu_co_sdk.CommandTransport.Open.{open_port, close_port}
use mcu_co_sdk.Mcuco.{Mcuco, mcuco_probe}

-- `mcuco_t *`
pub record Handle : Type 0 where
  pub address : ℕ
  pub mcu : Mcuco

module _ (sys : System) where
  open sys use {State}

  unfoldable pub mcuco_close : Option Handle → State → State
  mcuco_close none s = s
  mcuco_close (some handle) s = sys.free handle.address (close_port sys handle.mcu.fd s)

  -- `errno` for a probe that did not succeed.
  abbrev pub probe_errno : ℕ → ℕ
  probe_errno status =
      if status == mcuco_status_err_no_response then sys.os.etimedout else sys.eproto

  -- From the probe on.
  unfoldable pub confirm : ℕ → Handle → M State (Call Handle)
  unfolding mcuco_close
  confirm fuel handle = mcuco_probe sys.os fuel (some handle.mcu) >>= λ status.
      if status != mcuco_status_ok
      then lift (λ s. (failed (probe_errno status), mcuco_close (some handle) s))
      else pure (returned handle)

  -- From the call of `open_port` on; the handle is allocated.
  unfoldable pub open_handle : ℕ → ℕ → ℤ × State → ℤ → Option (Call Handle × State)
  unfolding confirm
  open_handle fuel address (fd, s) timeout_ms =
      let rest =
        confirm fuel
          (record { address = address; mcu = record { fd = fd; timeout_ms = timeout_ms } }) s in
      if is_neg fd then some (failed (neg_part fd), sys.free address s) else rest

  -- What follows `malloc`.
  unfoldable pub handle_malloc : ℕ → Call ℕ × State → List ℕ → ℤ → Option (Call Handle × State)
  unfolding open_handle
  handle_malloc fuel (failed errno, s) device_path timeout_ms = some (failed errno, s)
  handle_malloc fuel (returned address, s) device_path timeout_ms =
      open_handle fuel address (open_port sys device_path s) timeout_ms

  -- The first argument is fuel for the loops of the probe.
  unfoldable pub mcuco_open : ℕ → Option (List ℕ) → ℤ → M State (Call Handle)
  unfolding handle_malloc
  mcuco_open fuel none timeout_ms s = some (failed sys.einval, s)
  mcuco_open fuel (some device_path) timeout_ms s =
      handle_malloc fuel (sys.malloc s) device_path timeout_ms
