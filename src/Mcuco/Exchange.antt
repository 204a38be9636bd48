-- ===== src/Mcuco/Exchange.antt =====
-- One exchange: the frame goes out whole, one answer is taken in, and the status is the answer's.
use mcu_co_sdk.Common.{ℕ, zero, suc, ◌+◌, ◌≤◌, ◌<◌, ◌≡◌, refl, sym, ap, ◌∙◌, ◌⊎◌, inl, inr, arith}
use mcu_co_sdk.Common.{
  List, [], ◌∷◌, ◌++◌, Option, some, true, false, Bool-cases, take, take-take, take_all, length,
  ◌!=◌, AreBytes,
}
use mcu_co_sdk.Common.{◌==◌, if◌then◌else◌}
use mathlib.Core.List.{append-nil}
use mcu_co_sdk.Common.Int.{pos}
use mcu_co_sdk.Values.{mcuco_status_ok, mcuco_status_err_bad_frame}
use mcu_co_sdk.Protocol.Defs.{Response, empty_response}
use mcu_co_sdk.Protocol.Parse.Reply.{reply_frame, reply_of}
use mcu_co_sdk.Os.{Os, Port, pure, ◌>>=◌}
use mcu_co_sdk.CommandTransport.Skip.{NoSof}
use mcu_co_sdk.CommandTransport.Decode.{IsReceiveError}
use mcu_co_sdk.CommandTransport.Receive.{receive_response-Received}
use mcu_co_sdk.CommandTransport.Transmit.{transmit_command-Transmitted}
use mcu_co_sdk.Mcuco.{Mcuco, status_from_response, store_response, exchange}

-- The status that an answer stands for: an ACK is a success, a NACK carries one byte, the status
-- of the firmware, and a NACK of any other length is no answer of the protocol.
abbrev pub reply_status : ℕ → List ℕ → ℕ
reply_status (suc ack) payload = mcuco_status_ok
reply_status zero [] = mcuco_status_err_bad_frame
reply_status zero (reason ∷ []) = reason
reply_status zero (reason ∷ more ∷ payload) = mcuco_status_err_bad_frame

-- The response that a client starts from, filled with an answer.
abbrev pub answered : ℕ → List ℕ → Response
answered ack payload = reply_of ack payload empty_response

status_from_response-reply_status :
    (ack : ℕ) (payload : List ℕ)
    → length payload ≤ 4
    → status_from_response (answered ack payload) ≡ reply_status ack payload
unfolding status_from_response
status_from_response-reply_status (suc ack) payload h = ground arith
status_from_response-reply_status zero [] h = refl
status_from_response-reply_status zero (reason ∷ []) h = refl
status_from_response-reply_status zero (reason ∷ more ∷ payload) h = ground arith

-- The last test of `exchange`.
pure_status :
    {S : Type 0} (status : ℕ) (old new : Option Response) (s : S)
    → (if status != mcuco_status_ok
          then pure {S = S} {A = ℕ × Option Response} (status, old)
          else pure (mcuco_status_ok, new))
        s
      ≡ some ((status, if status == mcuco_status_ok then new else old), s)
pure_status status old new s = elim (Bool-cases (status == mcuco_status_ok)) [
  | inl good ↦
      let ok : status ≡ mcuco_status_ok = ground arith in
      rw good (ap (λ n. some ((n, new), s)) (sym ok))
  | inr bad ↦ rw bad
]

module _ (os : Os) (fuel : ℕ) (mcu : Mcuco) (port : Port os mcu.fd) where
  -- What an exchange of `frame` leaves: the port took its first `count` bytes and handed out
  -- `bytes`. Either no answer came in, the status says why and the response is as it was; or the
  -- whole frame went out, one answer came in after bytes without a SOF, the status is the answer's,
  -- and with success the response is the answer.
  pub record Exchanged (frame : List ℕ) (old : Option Response) (s : os.State)
      (result : Option ((ℕ × Option Response) × os.State)) : Type 0 where
    pub status : ℕ
    pub response : Option Response
    pub count : ℕ
    pub bytes : List ℕ
    pub after : os.State
    pub returns : result ≡ some ((status, response), after)
    pub sent : port.sent after ≡ port.sent s ++ take count frame
    pub received : port.received after ≡ port.received s ++ bytes
    pub are_bytes : AreBytes bytes
    pub outcome :
        ((junk : List ℕ) × (ack : ℕ) × (payload : List ℕ) × (count ≡ length frame)
          × (bytes ≡ junk ++ reply_frame ack payload)
          × NoSof junk
          × (length payload ≤ 4)
          × (status ≡ reply_status ack payload)
          × (response ≡ (
              if status == mcuco_status_ok
              then store_response old (answered ack payload)
              else old)))
        ⊎ (IsReceiveError status × (response ≡ old))

  -- With a frame that is not empty and lies in its array, and fuel for its bytes and for all that
  -- the port can still deliver, an exchange ends. The port takes the frame, whole or, on an error, a
  -- front part of it. Either one answer comes in, after bytes without a SOF, and the status is the
  -- one that it stands for, with the response stored only if that is a success; or the status is one
  -- of a failed link, no response or a bad frame, and the response is as it was.
  pub exchange-Exchanged :
      (frame : List ℕ) (frame_len : ℕ) (old : Option Response) (s : os.State)
      → 0 < frame_len
      → frame_len ≤ length frame
      → port.supply s + frame_len < fuel
      → Exchanged (take frame_len frame) old s (exchange os fuel mcu frame (pos frame_len) old s)
  unfolding exchange
  exchange-Exchanged frame frame_len old s some_bytes fits enough =
      let t =
        transmit_command-Transmitted os fuel mcu.fd port frame frame_len s some_bytes fits enough in
      rw (t.returns, ◌>>=◌)
        (elim t.outcome [
          | inr (bad, few) ↦
              let stops : (t.status != mcuco_status_ok) ≡ true = ground arith in
              rw stops (record {
                status = t.status;
                response = old;
                count = t.count;
                bytes = [];
                after = t.after;
                returns = refl;
                sent =
                    t.taken.sent
                    ∙ ap (λ b. port.sent s ++ b)
                        (sym (take-take t.count frame_len frame (omega arith)));
                are_bytes = tt;
                received = t.taken.received ∙ sym (append-nil _);
                outcome = inr (inl (inr bad), refl);
              })
          | inl (good, whole) ↦
              let goes_on : (t.status != mcuco_status_ok) ≡ false = ground arith in
              let r =
                receive_response-Received os fuel mcu.fd port mcu.timeout_ms empty_response t.after
                  (omega (arith, t.taken.supply)) in
              let measure = length (take frame_len frame) in
              let sent =
                r.handed.sent
                ∙ t.taken.sent
                ∙ ap (λ b. port.sent s ++ b)
                    (ap (λ n. take n frame) whole
                      ∙ sym (take_all measure (take frame_len frame) refl)) in
              let received = r.handed.received ∙ ap (λ b. b ++ r.bytes) t.taken.received in
              rw goes_on (
                rw (r.returns, ◌>>=◌)
                  (elim r.outcome [
                    | inr (bad, same) ↦
                        let stops : (r.status != mcuco_status_ok) ≡ true = ground arith in
                        rw stops (record {
                          status = r.status;
                          response = old;
                          count = measure;
                          bytes = r.bytes;
                          after = r.after;
                          returns = refl;
                          sent = sent;
                          received = received;
                          are_bytes = r.handed.bytes;
                          outcome = inr (bad, refl);
                        })
                    | inl (ok, (junk, ack, payload, e, clean, small, out)) ↦
                        let decoded : (r.status != mcuco_status_ok) ≡ false = ground arith in
                        rw (decoded, out, status_from_response-reply_status ack payload small)
                          (record {
                            status = reply_status ack payload;
                            response =
                                if reply_status ack payload == mcuco_status_ok
                                then store_response old (answered ack payload)
                                else old;
                            count = measure;
                            bytes = r.bytes;
                            after = r.after;
                            returns = pure_status (reply_status ack payload) old _ r.after;
                            sent = sent;
                            received = received;
                            are_bytes = r.handed.bytes;
                            outcome = inl (junk, ack, payload, refl, e, clean, small, refl, refl);
                          })
                  ]))
        ])
