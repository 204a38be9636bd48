-- ===== src/Mcuco/Rejects.antt =====
-- What every call of the library does without touching the port.
use mcu_co_sdk.Common.{ℕ, ◌≡◌, refl, Option, none, some}
use mcu_co_sdk.Common.Int.{neg_ℕ}
use mcu_co_sdk.Values.{mcuco_status_err_arg}
use mcu_co_sdk.Os.{Os}
use mcu_co_sdk.Protocol.Defs.{Response}
use mcu_co_sdk.Protocol.Commands.Request.{
  Request, InRange, build, probe, gpio_get, gpio_toggle, group_get, channel_get,
}
use mcu_co_sdk.Protocol.Commands.Accepts.{build-rejects}
use mcu_co_sdk.Protocol.Commands.{Built}
use mcu_co_sdk.Mcuco.{
  Mcuco, frame_array, exchange, exchange_status, exchange_data, level_result, frequency_result,
  duty_result,
}
use mcu_co_sdk.Mcuco.Calls.{call, no_result}

abbrev refusal : Built
refusal = (neg_ℕ mcuco_status_err_arg, some frame_array)

module _ (os : Os) (fuel : ℕ) where
  -- A builder that refused.
  module _ (mcu : Mcuco) (out : ℕ) (s : os.State) {b : Built} (refused : b ≡ refusal) where
    plain_refused :
        no_result os fuel (exchange_status os fuel mcu b) (some out) s
        ≡ some ((mcuco_status_err_arg, some out), s)
    unfolding exchange
    plain_refused = rw refused

    data_refused :
        (result : Response → ℕ → ℕ × Option ℕ)
        → exchange_data os fuel mcu b out result s ≡ some ((mcuco_status_err_arg, some out), s)
    unfolding exchange exchange_data
    data_refused result = rw refused

  -- On a value that the protocol does not have every call returns the error of a rejected argument;
  -- the state of the system, the port with it, and the result are as they were.
  pub call-rejects :
      (r : Request) (mcu : Mcuco) (out : ℕ) (s : os.State)
      → ¬ InRange r
      → call os fuel r (some mcu) (some out) s ≡ some ((mcuco_status_err_arg, some out), s)
  unfolding call build exchange
  call-rejects probe mcu out s h = absurd (h tt)
  call-rejects (gpio_get port pin) mcu out s h =
      data_refused mcu out s (build-rejects (gpio_get port pin) _ _ h) level_result
  call-rejects (gpio_toggle port pin) mcu out s h =
      data_refused mcu out s (build-rejects (gpio_toggle port pin) _ _ h) level_result
  call-rejects (group_get group) mcu out s h =
      data_refused mcu out s (build-rejects (group_get group) _ _ h) frequency_result
  call-rejects (channel_get port pin) mcu out s h =
      data_refused mcu out s (build-rejects (channel_get port pin) _ _ h) duty_result
  call-rejects r mcu out s h = plain_refused mcu out s (build-rejects r _ _ h)

  -- So it is with a NULL handle.
  pub call_null :
      (r : Request) (out : Option ℕ) (s : os.State)
      → call os fuel r none out s ≡ some ((mcuco_status_err_arg, out), s)
  unfolding call
  call_null probe out s = refl
  call_null _ out s = refl
