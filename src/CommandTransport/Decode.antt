-- ===== src/CommandTransport/Decode.antt =====
-- The decoding at the end of `receive_response`, at the array that the reads have filled.
use mcu_co_sdk.Common.{
  ℕ, zero, suc, ◌+◌, ◌≤◌, ◌<◌, ◌^◌, ◌≡◌, refl, sym, ap, ◌∙◌, ◌⊎◌, inl, inr, arith,
}
use mcu_co_sdk.Common.{List, [], ◌∷◌, ◌++◌, Option, some, length}
use mcu_co_sdk.Common.{get_or, drop, take, take-append, replicate, length-append, AreBytes}
use mcu_co_sdk.Values.{mcuco_status_ok, mcuco_status_err_bad_frame}
use mcu_co_sdk.Protocol.Defs.{Response, protocol_sof}
use mcu_co_sdk.Protocol.Build.Frame.{crc_bytes}
use mcu_co_sdk.Protocol.Parse.{protocol_parse_response}
use mcu_co_sdk.Protocol.Parse.Reply.{reply_frame, reply_of, parse-Accepted, parse_status}
use mcu_co_sdk.Crc16.Fold.{crc16}
use mcu_co_sdk.Uart.Trace.{AreBytes-append}
use mcu_co_sdk.CommandTransport.Exact.{IsLinkError}
use mcu_co_sdk.CommandTransport.Skip.{NoSof}

-- The bytes `junk` without a SOF, then one response frame, whose fields are handed out.
abbrev pub Answer : List ℕ → Response → Option Response → Type 0
Answer bytes old response =
    (junk : List ℕ) × (ack : ℕ) × (payload : List ℕ) × (bytes ≡ junk ++ reply_frame ack payload)
    × NoSof junk
    × (length payload ≤ 4)
    × (response ≡ some (reply_of ack payload old))

abbrev pub IsReceiveError : ℕ → Type 0
IsReceiveError status = IsLinkError status ⊎ (status ≡ mcuco_status_err_bad_frame)

-- A frame of as many bytes as LEN announces is all that the parser took.
pub frame_is_reply :
    (s l ack : ℕ) (rest payload more tail : List ℕ)
    → s ∷ l ∷ rest ++ tail ≡ reply_frame ack payload ++ more
    → length rest ≡ l + 2
    → s ∷ l ∷ rest ≡ reply_frame ack payload
frame_is_reply s l ack rest payload more tail e n =
    let len : l ≡ suc (length payload) = ap (λ t. get_or t 1 0) e in
    let whole = reply_frame ack payload in
    let measured : length whole ≡ suc (suc (length rest)) =
      omega
        (arith, length-append payload (crc_bytes (crc16 (suc (length payload) ∷ ack ∷ payload)))) in
    sym (take-append (s ∷ l ∷ rest) tail (suc (suc (length rest))) refl)
    ∙ ap (take (suc (suc (length rest)))) e
    ∙ take-append whole more (suc (suc (length rest))) (sym measured)

-- The bytes behind LEN as they lie in the zeroed array.
abbrev pub stored : List ℕ → List ℕ
stored bs = bs ++ drop (length bs) (replicate 7 0)

pub AreBytes-drop : (n : ℕ) (xs : List ℕ) → AreBytes xs → AreBytes (drop n xs)
AreBytes-drop zero xs h = h
AreBytes-drop (suc n) [] h = tt
AreBytes-drop (suc n) (x ∷ xs) h = AreBytes-drop n xs h.1

pub zeros-AreBytes : (n : ℕ) → AreBytes (drop n (replicate 7 0))
zeros-AreBytes n = AreBytes-drop n (replicate 7 0) (omega arith)

-- The parser at the array, once the frame that LEN announces has been read.
pub decode_frame :
    (l : ℕ) (bs : List ℕ) (old : Response)
    → l < 2 ^ 8
    → l ≤ 5
    → length bs ≡ l + 2
    → AreBytes bs
    → let parsed =
        protocol_parse_response (some (protocol_sof ∷ l ∷ stored bs)) (4 + l) (some old) in
      ((parsed.0 ≡ mcuco_status_ok)
        × ((ack : ℕ) × (payload : List ℕ) × (protocol_sof ∷ l ∷ bs ≡ reply_frame ack payload)
            × (length payload ≤ 4)
            × (parsed.1 ≡ some (reply_of ack payload old))))
      ⊎ (parsed ≡ (mcuco_status_err_bad_frame, some old))
decode_frame l bs old byte small n bytes =
    let frame = protocol_sof ∷ l ∷ stored bs in
    let parsed = protocol_parse_response (some frame) (4 + l) (some old) in
    elim (parse_status frame (4 + l) old) [
      | inr bad ↦ inr bad
      | inl good ↦
          let e : parsed ≡ (mcuco_status_ok, parsed.1) = ap (λ c. (c, parsed.1)) good in
          let a =
            parse-Accepted frame (4 + l) old
              (omega arith, (byte, AreBytes-append bs _ bytes (zeros-AreBytes (length bs))))
              (omega (arith, length-append bs (drop (length bs) (replicate 7 0)))) e in
          inl (good, (a.0, a.1, frame_is_reply protocol_sof l a.0 bs a.1 a.2 _ a.3 n, a.4, a.6))
    ]
