-- ===== src/Mcuco/Frame.antt =====
-- What the calls of the library leave alone: all that the four system calls leave alone.
use mcu_co_sdk.Common.{ℕ, List, Option, none, some}
use mcu_co_sdk.Common.Int.{ℤ}
use mcu_co_sdk.Protocol.Defs.{Response}
use mcu_co_sdk.Protocol.Commands.{Built}
use mcu_co_sdk.Protocol.Commands.Request.{Request, gpio_get, gpio_toggle, group_get, channel_get}
use mcu_co_sdk.Os.{Os}
use mcu_co_sdk.Os.Keeps.{IsKept, Kept, kept_rules}
use mcu_co_sdk.CommandTransport.Frame.{receive_response-Kept, transmit_command-Kept}
use mcu_co_sdk.Mcuco.{Mcuco, exchange, exchange_data}
use mcu_co_sdk.Mcuco.Calls.{call}

module _ (os : Os) (mcu : Mcuco) (I : os.State → Type 0) (kept : IsKept os mcu.fd I)
    (fuel : ℕ) where
  exchange-Kept :
      (frame : List ℕ) (frame_len : ℤ) (response : Option Response)
      → Kept I (exchange os fuel mcu frame frame_len response)
  unfolding exchange
  exchange-Kept frame frame_len response =
      search
        (kept_rules, transmit_command-Kept os mcu.fd I kept, receive_response-Kept os mcu.fd I kept)
        depth 12

  exchange_data-Kept :
      (b : Built) (out : ℕ) (result : Response → ℕ → ℕ × Option ℕ)
      → Kept I (exchange_data os fuel mcu b out result)
  unfolding exchange_data
  exchange_data-Kept b out result = search (kept_rules, exchange-Kept)

  -- Every call of the library on an open handle, with any arguments, keeps every property of the
  -- system's state that reading the clock and the calls on the handle's descriptor keep.
  pub call-Kept : (r : Request) (out : Option ℕ) → Kept I (call os fuel r (some mcu) out)
  unfolding call
  call-Kept (gpio_get port pin) (some out) = search (exchange_data-Kept)
  call-Kept (gpio_get port pin) none = search kept_rules
  call-Kept (gpio_toggle port pin) (some out) = search (exchange_data-Kept)
  call-Kept (gpio_toggle port pin) none = search kept_rules
  call-Kept (group_get group) (some out) = search (exchange_data-Kept)
  call-Kept (group_get group) none = search kept_rules
  call-Kept (channel_get port pin) (some out) = search (exchange_data-Kept)
  call-Kept (channel_get port pin) none = search kept_rules
  call-Kept r out = search (kept_rules, exchange-Kept)
