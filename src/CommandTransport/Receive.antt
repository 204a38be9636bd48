-- ===== src/CommandTransport/Receive.antt =====
-- `receive_response` against the stream of bytes that the port hands out.
use mcu_co_sdk.Common.{ℕ, ◌+◌, ◌≤◌, ◌<◌, ◌^◌, ◌≡◌, refl, sym, ap, ◌∙◌, ◌⊎◌, inl, inr, arith}
use mcu_co_sdk.Common.{
  List, [], ◌∷◌, ◌++◌, Option, some, true, false, Bool-cases, overwrite, overwrite-front, length,
}
use mcu_co_sdk.Common.{◌!=◌, ◌||◌, ltb, get_or, replicate}
use mcu_co_sdk.Common.Int.{ℤ, ◌+ℤ◌}
use mathlib.Core.Path.{subst}
use mathlib.Core.List.{append_assoc}
use mcu_co_sdk.Values.{mcuco_status_ok, mcuco_status_err_bad_frame}
use mcu_co_sdk.Protocol.Defs.{Response, protocol_sof}
use mcu_co_sdk.Protocol.Parse.Reply.{reply_frame, reply_of}
use mcu_co_sdk.Os.{Os, Port, ◌>>=◌}
use mcu_co_sdk.Uart.{now_ms}
use mcu_co_sdk.Uart.Trace.{Handed, Handed-trans, Handed-nothing, Handed-now_ms}
use mcu_co_sdk.CommandTransport.{receive_body, receive_len, receive_response}
use mcu_co_sdk.CommandTransport.Exact.{read_exactly-ReadsExactly}
use mcu_co_sdk.CommandTransport.Skip.{NoSof, single, skip_to_sof-Skips}
use mcu_co_sdk.CommandTransport.Decode.{Answer, IsReceiveError, decode_frame}

module _ (os : Os) (fuel : ℕ) (fd : ℤ) (port : Port os fd) where
  -- The call ended, having taken `bytes` off the port from `start` on.
  pub record Receives (front : List ℕ) (old : Response) (s : os.State)
      (result : Option ((ℕ × Option Response) × os.State)) : Type 0 where
    pub status : ℕ
    pub response : Option Response
    pub bytes : List ℕ
    pub after : os.State
    pub returns : result ≡ some ((status, response), after)
    pub handed : Handed os fd port s after bytes
    pub outcome :
        ((status ≡ mcuco_status_ok)
          × ((ack : ℕ) × (payload : List ℕ) × (front ++ bytes ≡ reply_frame ack payload)
              × (length payload ≤ 4)
              × (response ≡ some (reply_of ack payload old))))
        ⊎ (IsReceiveError status × (response ≡ some old))

  receive_body-Receives :
      (l : ℕ) (deadline_ms : ℤ) (old : Response) (s : os.State)
      → port.supply s < fuel
      → l < 2 ^ 8
      → Receives
          (protocol_sof ∷ l ∷ [])
          old
          s
          (receive_body os fuel fd (protocol_sof ∷ l ∷ replicate 7 0) deadline_ms old l s)
  unfolding receive_body
  receive_body-Receives l deadline_ms old s enough byte =
      let frame = protocol_sof ∷ l ∷ replicate 7 0 in
      elim (Bool-cases (ltb l 1 || ltb 5 l)) [
        | inl odd ↦ rw odd (record {
          status = mcuco_status_err_bad_frame;
          response = some old;
          bytes = [];
          after = s;
          returns = refl;
          handed = Handed-nothing os fd port refl refl (omega arith);
          outcome = inr (inr refl, refl);
        })
        | inr even ↦
            let small : l ≤ 5 = ground arith in
            let r =
              read_exactly-ReadsExactly os fuel fd port frame 2 (l + 2) deadline_ms s (omega arith)
                enough in
            rw even (
              rw (r.returns, ◌>>=◌)
                (elim r.outcome [
                  | inr (bad, few) ↦
                      let stops : (r.status != mcuco_status_ok) ≡ true = ground arith in
                      rw stops (record {
                        status = r.status;
                        response = some old;
                        bytes = r.bytes;
                        after = r.after;
                        returns = refl;
                        handed = r.handed;
                        outcome = inr (inl bad, refl);
                      })
                  | inl (good, n) ↦
                      let goes_on : (r.status != mcuco_status_ok) ≡ false = ground arith in
                      let front = overwrite-front (replicate 7 0) r.bytes (omega arith) in
                      let d = decode_frame l r.bytes old byte small n r.handed.bytes in
                      rw (goes_on, front)
                        (record {
                          status = _;
                          response = _;
                          bytes = r.bytes;
                          after = r.after;
                          returns = refl;
                          handed = r.handed;
                          outcome = elim d [
                            | inl good ↦ inl good
                            | inr bad ↦ inr (inr (ap (λ c. c.0) bad), ap (λ c. c.1) bad)
                          ];
                        })
                ]))
      ]

  Receives-after :
      {front : List ℕ} {old : Response} {s s' : os.State} (b : ℕ)
      {result : Option ((ℕ × Option Response) × os.State)}
      → Handed os fd port s s' (b ∷ [])
      → Receives (front ++ b ∷ []) old s' result
      → Receives front old s result
  Receives-after {front} b h r = record {
    status = r.status;
    response = r.response;
    bytes = b ∷ r.bytes;
    after = r.after;
    returns = r.returns;
    handed = Handed-trans os fd port h r.handed;
    outcome = elim r.outcome [
      | inl (good, (ack, payload, e, small, out)) ↦
          inl (good, (ack, payload, sym (append_assoc front (b ∷ []) r.bytes) ∙ e, small, out))
      | inr bad ↦ inr bad
    ];
  }

  receive_len-Receives :
      (deadline_ms : ℤ) (old : Response) (s : os.State)
      → port.supply s < fuel
      → Receives
          (protocol_sof ∷ [])
          old
          s
          (receive_len os fuel fd (protocol_sof ∷ replicate 8 0) deadline_ms old s)
  unfolding receive_len
  receive_len-Receives deadline_ms old s enough =
      let r =
        read_exactly-ReadsExactly os fuel fd port (protocol_sof ∷ replicate 8 0) 1 1 deadline_ms s
          (omega arith) enough in
      rw (r.returns, ◌>>=◌)
        (elim r.outcome [
          | inr (bad, few) ↦
              let stops : (r.status != mcuco_status_ok) ≡ true = ground arith in
              rw stops (record {
                status = r.status;
                response = some old;
                bytes = r.bytes;
                after = r.after;
                returns = refl;
                handed = r.handed;
                outcome = inr (inl bad, refl);
              })
          | inl (good, one) ↦
              let l = get_or r.bytes 0 0 in
              let byte : r.bytes ≡ l ∷ [] = single r.bytes one in
              let goes_on : (r.status != mcuco_status_ok) ≡ false = ground arith in
              let written : overwrite (replicate 8 0) 0 r.bytes ≡ l ∷ replicate 7 0 =
                ap (overwrite (replicate 8 0) 0) byte in
              let handed : Handed os fd port s r.after (l ∷ []) =
                subst (Handed os fd port s r.after) byte r.handed in
              rw (goes_on, written)
                (Receives-after l handed (
                  receive_body-Receives l deadline_ms old r.after (omega (arith, handed.supply))
                    handed.bytes.0))
        ])

  -- The whole call ended: with success, `bytes` are junk without a SOF and then one response frame.
  pub record Received (old : Response) (s : os.State)
      (result : Option ((ℕ × Option Response) × os.State)) : Type 0 where
    pub status : ℕ
    pub response : Option Response
    pub bytes : List ℕ
    pub after : os.State
    pub returns : result ≡ some ((status, response), after)
    pub handed : Handed os fd port s after bytes
    pub outcome :
        ((status ≡ mcuco_status_ok) × Answer bytes old response)
        ⊎ (IsReceiveError status × (response ≡ some old))

  Received-after :
      {old : Response} {s s' : os.State} (junk : List ℕ)
      {result : Option ((ℕ × Option Response) × os.State)}
      → NoSof junk
      → Handed os fd port s s' (junk ++ protocol_sof ∷ [])
      → Receives (protocol_sof ∷ []) old s' result
      → Received old s result
  Received-after junk clean h r = record {
    status = r.status;
    response = r.response;
    bytes = (junk ++ protocol_sof ∷ []) ++ r.bytes;
    after = r.after;
    returns = r.returns;
    handed = Handed-trans os fd port h r.handed;
    outcome = elim r.outcome [
      | inl (good, (ack, payload, e, small, out)) ↦ inl (
        good,
        (
          junk,
          ack,
          payload,
          append_assoc junk (protocol_sof ∷ []) r.bytes ∙ ap (λ t. junk ++ t) e,
          clean,
          small,
          out,
        ),
      )
      | inr bad ↦ inr bad
    ];
  }

  -- With fuel for everything that the port can still deliver, `receive_response` ends, and only
  -- takes bytes off the port. With success these bytes are some without a SOF and then exactly one
  -- response frame with a right checksum, whose fields the response holds. Otherwise the status is
  -- one of no response, a failed link or a bad frame, and the response is as it was.
  pub receive_response-Received :
      (timeout_ms : ℤ) (old : Response) (s : os.State)
      → port.supply s < fuel
      → Received old s (receive_response os fuel fd timeout_ms (some old) s)
  unfolding receive_response
  receive_response-Received timeout_ms old s enough =
      let ticked = Handed-now_ms os fd port s in
      let deadline_ms = (now_ms os s).0 +ℤ timeout_ms in
      let r =
        skip_to_sof-Skips os fuel fd port fuel 0 (replicate 8 0) deadline_ms (now_ms os s).1
          (omega (arith, ticked.supply)) (omega (arith, ticked.supply)) in
      let handed = Handed-trans os fd port ticked r.handed in
      rw (r.returns, ◌>>=◌)
        (elim r.outcome [
          | inr bad ↦
              let stops : (r.status != mcuco_status_ok) ≡ true = ground arith in
              rw stops (record {
                status = r.status;
                response = some old;
                bytes = r.bytes;
                after = r.after;
                returns = refl;
                handed = handed;
                outcome = inr (inl bad, refl);
              })
          | inl (junk, good, frame, all, clean) ↦
              let goes_on : (r.status != mcuco_status_ok) ≡ false = ground arith in
              rw (goes_on, frame)
                (Received-after junk clean (subst (Handed os fd port s r.after) all handed)
                  (receive_len-Receives deadline_ms old r.after (omega (arith, handed.supply))))
        ])
