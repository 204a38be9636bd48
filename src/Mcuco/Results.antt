-- ===== src/Mcuco/Results.antt =====
-- What every call of the library does on an open handle, from the request to the result.
use mcu_co_sdk.Common.{ℕ, ◌+◌, ◌≤◌, ◌<◌, ◌≡◌, refl, sym, ap, ◌∙◌, ◌⊎◌, inl, inr, arith}
use mcu_co_sdk.Common.{
  List, ◌++◌, Option, none, some, true, false, Bool-cases, take, drop, length, AreBytes,
}
use mcu_co_sdk.Common.{◌==◌, ◌!=◌, take-append, length-append}
use mcu_co_sdk.Common.Int.{pos}
use mathlib.Core.Path.{subst}
use mcu_co_sdk.Values.{mcuco_status_ok}
use mcu_co_sdk.Protocol.Defs.{Response, empty_response, protocol_max_command_frame}
use mcu_co_sdk.Protocol.Build.Frame.{length-command_frame}
use mcu_co_sdk.Protocol.Parse.Reply.{reply_frame}
use mcu_co_sdk.Protocol.Commands.{get_or_nil}
use mcu_co_sdk.Protocol.Commands.Request.{
  Request, InRange, opcode_of, payload_of, build, length-payload_of, probe, gpio_get, gpio_toggle,
  group_get, channel_get,
}
use mcu_co_sdk.Protocol.Commands.Accepts.{build-command_frame}
use mcu_co_sdk.Os.{Os, Port, ◌>>=◌}
use mcu_co_sdk.CommandTransport.Skip.{NoSof}
use mcu_co_sdk.CommandTransport.Decode.{IsReceiveError}
use mcu_co_sdk.Mcuco.{
  Mcuco, frame_array, exchange, exchange_status, exchange_data, level_result, frequency_result,
  duty_result,
}
use mcu_co_sdk.Mcuco.Exchange.{reply_status, answered, Exchanged, exchange-Exchanged}
use mcu_co_sdk.Mcuco.Calls.{no_result, call, value_of, interpret}
use mcu_co_sdk.Mcuco.Answers.{
  frame_of, built, payload-AreBytes, Agrees, level_result-agrees, frequency_result-agrees,
  duty_result-agrees, probe_data, probe_data-agrees,
}

module _ (os : Os) (fuel : ℕ) (mcu : Mcuco) (port : Port os mcu.fd) where
  -- A call ended: the port took the first `count` bytes of the request's frame and handed out
  -- `bytes`. Either it took the whole frame, one answer came in after bytes without a SOF, and the
  -- status and the result are those of the answer; or no answer came in, the status says why, and
  -- the result is untouched.
  pub record Called (r : Request) (out : ℕ) (s : os.State)
      (result : Option ((ℕ × Option ℕ) × os.State)) : Type 0 where
    pub status : ℕ
    pub value : Option ℕ
    pub count : ℕ
    pub bytes : List ℕ
    pub are_bytes : AreBytes bytes
    pub after : os.State
    pub returns : result ≡ some ((status, value), after)
    pub sent : port.sent after ≡ port.sent s ++ take count (frame_of r)
    pub received : port.received after ≡ port.received s ++ bytes
    pub outcome :
        ((junk : List ℕ) × (ack : ℕ) × (payload : List ℕ) × (count ≡ length (frame_of r))
          × (bytes ≡ junk ++ reply_frame ack payload)
          × NoSof junk
          × (length payload ≤ 4)
          × ((status, value) ≡ interpret r ack payload out))
        ⊎ (IsReceiveError status × (value ≡ some out))

  built-Exchanged :
      (r : Request) (old : Option Response) (s : os.State)
      → InRange r
      → port.supply s + protocol_max_command_frame < fuel
      → Exchanged os fuel mcu port
          (frame_of r)
          old
          s
          (exchange os fuel mcu (get_or_nil (built r).1) (built r).0 old s)
  built-Exchanged r old s h enough =
      let n = 5 + length (payload_of r) in
      let short = length-payload_of r in
      let rest = drop n frame_array in
      rw
        (build-command_frame r frame_array protocol_max_command_frame h (omega arith) (omega arith))
        (subst
          (λ f.
            Exchanged os fuel mcu port f old s
              (exchange os fuel mcu (frame_of r ++ rest) (pos n) old s))
          (take-append (frame_of r) rest n
            (sym (length-command_frame (opcode_of r) (payload_of r))))
          (exchange-Exchanged os fuel mcu port (frame_of r ++ rest) n old s (omega arith)
            (omega (
              arith,
              length-append (frame_of r) rest,
              length-command_frame (opcode_of r) (payload_of r),
            ))
            (omega arith)))

  -- A call without a result.
  plain-Called :
      (r : Request) (out : ℕ) (s : os.State)
      → ((payload : List ℕ) → value_of r payload out ≡ (mcuco_status_ok, some out))
      → Exchanged os fuel mcu port
          (frame_of r)
          none
          s
          (exchange os fuel mcu (get_or_nil (built r).1) (built r).0 none s)
      → Called r out s (no_result os fuel (exchange_status os fuel mcu (built r)) (some out) s)
  plain-Called r out s plain e =
      rw (e.returns, ◌>>=◌)
        (record {
          status = e.status;
          value = some out;
          count = e.count;
          bytes = e.bytes;
          are_bytes = e.are_bytes;
          after = e.after;
          returns = refl;
          sent = e.sent;
          received = e.received;
          outcome = elim e.outcome [
            | inl (junk, ack, payload, n, b, clean, small, status, response) ↦
                inl (junk, ack, payload, n, b, clean, small, ground (arith, plain payload))
            | inr (bad, same) ↦ inr (bad, refl)
          ];
        })

  -- A call that reads a value.
  data-Called :
      (r : Request) (out : ℕ) (s : os.State) (result : Response → ℕ → ℕ × Option ℕ)
      → Agrees r out result
      → Exchanged os fuel mcu port
          (frame_of r)
          (some empty_response)
          s
          (exchange os fuel mcu (get_or_nil (built r).1) (built r).0 (some empty_response) s)
      → Called r out s (exchange_data os fuel mcu (built r) out result s)
  unfolding exchange_data
  data-Called r out s result agrees e =
      rw (e.returns, ◌>>=◌)
        (elim e.outcome [
          | inr (bad, same) ↦
              let stops : (e.status != mcuco_status_ok) ≡ true = ground arith in
              rw stops (record {
                status = e.status;
                value = some out;
                count = e.count;
                bytes = e.bytes;
                are_bytes = e.are_bytes;
                after = e.after;
                returns = refl;
                sent = e.sent;
                received = e.received;
                outcome = inr (bad, refl);
              })
          | inl (junk, ack, payload, n, b, clean, small, status, response) ↦
              let bytes = payload-AreBytes junk payload ack (subst AreBytes b e.are_bytes) in
              let made = interpret r ack payload out in
              record {
                status = made.0;
                value = made.1;
                count = e.count;
                bytes = e.bytes;
                are_bytes = e.are_bytes;
                after = e.after;
                returns = elim (Bool-cases (e.status == mcuco_status_ok)) [
                  | inl good ↦
                      let answer : (reply_status ack payload == mcuco_status_ok) ≡ true =
                        ap (λ n. n == mcuco_status_ok) (sym status) ∙ good in
                      let stored : e.response ≡ some (answered ack payload) = response ∙ rw good in
                      rw (good, stored, answer)
                        (ap (λ v. some (v, e.after)) (agrees ack payload bytes))
                  | inr bad ↦
                      let answer : (reply_status ack payload == mcuco_status_ok) ≡ false =
                        ap (λ n. n == mcuco_status_ok) (sym status) ∙ bad in
                      rw (bad, answer) (ap (λ n. some ((n, some out), e.after)) status)
                ];
                sent = e.sent;
                received = e.received;
                outcome = inl (junk, ack, payload, n, b, clean, small, refl);
              }
        ])

  probe-eq-exchange_data :
      (out : ℕ) (s : os.State)
      → Exchanged os fuel mcu port (frame_of probe) (some empty_response) s (
          exchange os fuel mcu (get_or_nil (built probe).1) (built probe).0 (some empty_response) s)
      → call os fuel probe (some mcu) (some out) s
        ≡ exchange_data os fuel mcu (built probe) out probe_data s
  unfolding call build exchange_data probe_data
  probe-eq-exchange_data out s e =
      rw (e.returns, ◌>>=◌)
        (elim (Bool-cases (e.status == mcuco_status_ok)) [ inl good ↦ rw good | inr bad ↦ rw bad ])

  probe-Called :
      (out : ℕ) (s : os.State)
      → Exchanged os fuel mcu port (frame_of probe) (some empty_response) s (
          exchange os fuel mcu (get_or_nil (built probe).1) (built probe).0 (some empty_response) s)
      → Called probe out s (call os fuel probe (some mcu) (some out) s)
  probe-Called out s e =
      subst (Called probe out s) (sym (probe-eq-exchange_data out s e))
        (data-Called probe out s probe_data (λ ack payload b. probe_data-agrees ack payload out) e)

  -- With a value that the protocol has, an open port, and fuel for a frame and for all that the port
  -- can still deliver, every call of the library ends. The port takes the request's frame and nothing
  -- else, whole or, on an error, a front part of it. Either one answer comes in, after bytes without
  -- a SOF, and status and result are those that the answer stands for; or the status is one of a
  -- failed link, no response or a bad frame, and the result is untouched.
  pub call-Called :
      (r : Request) (out : ℕ) (s : os.State)
      → InRange r
      → port.supply s + protocol_max_command_frame < fuel
      → Called r out s (call os fuel r (some mcu) (some out) s)
  unfolding call build
  call-Called probe out s h enough = probe-Called out s (built-Exchanged probe _ s h enough)
  call-Called (gpio_get port pin) out s h enough =
      data-Called (gpio_get port pin) out s level_result
        (λ ack payload b. level_result-agrees ack payload out port pin)
        (built-Exchanged (gpio_get port pin) _ s h enough)
  call-Called (gpio_toggle port pin) out s h enough =
      data-Called (gpio_toggle port pin) out s level_result
        (λ ack payload b. level_result-agrees ack payload out port pin)
        (built-Exchanged (gpio_toggle port pin) _ s h enough)
  call-Called (group_get group) out s h enough =
      data-Called (group_get group) out s frequency_result
        (λ ack payload b. frequency_result-agrees ack payload out group b)
        (built-Exchanged (group_get group) _ s h enough)
  call-Called (channel_get port pin) out s h enough =
      data-Called (channel_get port pin) out s duty_result
        (λ ack payload b. duty_result-agrees ack payload out port pin b)
        (built-Exchanged (channel_get port pin) _ s h enough)
  call-Called r out s h enough =
      plain-Called r out s (λ payload. refl) (built-Exchanged r none s h enough)
