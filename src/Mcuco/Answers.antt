-- ===== src/Mcuco/Answers.antt =====
-- What the calls make of a response is what the protocol says of its data.
use mcu_co_sdk.Common.{ℕ, ◌≡◌, refl, arith}
use mcu_co_sdk.Common.{List, [], ◌∷◌, ◌++◌, Option, some, AreBytes}
use mcu_co_sdk.Endianess.RoundTrip.{get_u16_le_lem, get_u32_le_lem}
use mcu_co_sdk.Protocol.Defs.{Response, protocol_max_command_frame}
use mcu_co_sdk.Protocol.Build.Frame.{command_frame}
use mcu_co_sdk.Protocol.Parse.Reply.{reply_frame}
use mcu_co_sdk.Protocol.Commands.{Built}
use mcu_co_sdk.Protocol.Commands.Request.{
  Request, opcode_of, payload_of, build, probe, gpio_get, group_get, channel_get,
}
use mcu_co_sdk.Mcuco.{frame_array, level_result, probe_result, frequency_result, duty_result}
use mcu_co_sdk.Mcuco.Exchange.{answered}
use mcu_co_sdk.Mcuco.Calls.{value_of}

-- The frame of a request.
abbrev pub frame_of : Request → List ℕ
frame_of r = command_frame (opcode_of r) (payload_of r)

-- What the builder of a request leaves in the local array of a call.
abbrev pub built : Request → Built
built r = build r (some frame_array) protocol_max_command_frame

pub payload-AreBytes :
    (junk payload : List ℕ) (ack : ℕ)
    → AreBytes (junk ++ reply_frame ack payload)
    → AreBytes payload
payload-AreBytes junk payload ack h =
    front-AreBytes payload _ (behind-AreBytes junk (reply_frame ack payload) h).1.1.1
  where
    behind-AreBytes : (xs ys : List ℕ) → AreBytes (xs ++ ys) → AreBytes ys
    behind-AreBytes [] ys p = p
    behind-AreBytes (x ∷ xs) ys p = behind-AreBytes xs ys p.1

    front-AreBytes : (xs ys : List ℕ) → AreBytes (xs ++ ys) → AreBytes xs
    front-AreBytes [] ys p = tt
    front-AreBytes (x ∷ xs) ys p = (p.0, front-AreBytes xs ys p.1)

-- A function of a response that agrees with what the data of a good answer are worth.
abbrev pub Agrees : Request → ℕ → (Response → ℕ → ℕ × Option ℕ) → Type 0
Agrees r out result =
    (ack : ℕ) (payload : List ℕ)
    → AreBytes payload
    → result (answered ack payload) out ≡ value_of r payload out

pub level_result-agrees :
    (ack : ℕ) (payload : List ℕ) (out port pin : ℕ)
    → level_result (answered ack payload) out ≡ value_of (gpio_get port pin) payload out
unfolding level_result
level_result-agrees ack [] out port pin = refl
level_result-agrees ack (b ∷ []) out port pin = ground arith
level_result-agrees ack (a ∷ b ∷ payload) out port pin = ground arith

pub frequency_result-agrees :
    (ack : ℕ) (payload : List ℕ) (out group : ℕ)
    → AreBytes payload
    → frequency_result (answered ack payload) out ≡ value_of (group_get group) payload out
unfolding frequency_result
frequency_result-agrees ack [] out group h = refl
frequency_result-agrees ack (a ∷ []) out group h = refl
frequency_result-agrees ack (a ∷ b ∷ []) out group h = refl
frequency_result-agrees ack (a ∷ b ∷ c ∷ []) out group h = refl
frequency_result-agrees ack (a ∷ b ∷ c ∷ d ∷ []) out group h =
    rw (get_u32_le_lem a b c d out [] h.0 h.1.0 h.1.1.0 h.1.1.1.0)
frequency_result-agrees ack (a ∷ b ∷ c ∷ d ∷ e ∷ payload) out group h = ground arith

pub duty_result-agrees :
    (ack : ℕ) (payload : List ℕ) (out port pin : ℕ)
    → AreBytes payload
    → duty_result (answered ack payload) out ≡ value_of (channel_get port pin) payload out
unfolding duty_result
duty_result-agrees ack [] out port pin h = refl
duty_result-agrees ack (a ∷ []) out port pin h = refl
duty_result-agrees ack (a ∷ b ∷ []) out port pin h =
    rw (get_u16_le_lem a b out (0 ∷ 0 ∷ []) h.0 h.1.0)
duty_result-agrees ack (a ∷ b ∷ c ∷ payload) out port pin h = ground arith

unfoldable pub probe_data : Response → ℕ → ℕ × Option ℕ
probe_data response out = (probe_result response, some out)

pub probe_data-agrees :
    (ack : ℕ) (payload : List ℕ) (out : ℕ)
    → probe_data (answered ack payload) out ≡ value_of probe payload out
unfolding probe_data probe_result
probe_data-agrees ack [] out = refl
probe_data-agrees ack (a ∷ []) out = refl
probe_data-agrees ack (a ∷ b ∷ []) out = refl
probe_data-agrees ack (a ∷ b ∷ c ∷ []) out = refl
probe_data-agrees ack (a ∷ b ∷ c ∷ d ∷ []) out = ground arith
probe_data-agrees ack (a ∷ b ∷ c ∷ d ∷ e ∷ payload) out = ground arith
