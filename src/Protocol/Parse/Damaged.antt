-- ===== src/Protocol/Parse/Damaged.antt =====
-- Response frames that were damaged on the line, before `protocol_parse_response` reads them.
use mcu_co_sdk.Common.{
  ℕ, suc, ◌+◌, ◌*◌, ◌/◌, ◌%◌, ◌^◌, ◌<◌, ◌≡◌, ◌≢◌, sym, ap, ◌∙◌, arith, List, ◌∷◌, ◌++◌, some,
  length, length-append,
}
use mcu_co_sdk.Crc16.Fold.{crc16, crc16-lt}
use mcu_co_sdk.Crc16.Detection.{crc16-byte_injective}
use mcu_co_sdk.Protocol.Defs.{Response, protocol_sof}
use mcu_co_sdk.Protocol.Build.Frame.{crc_bytes}
use mcu_co_sdk.Protocol.Parse.{protocol_parse_response}
use mcu_co_sdk.Protocol.Parse.Reply.{reply_body, bad, parse_shape}

-- A frame whose checksum is not that of its body.
wrong_checksum :
    (l ack : ℕ) (payload more : List ℕ) (lo hi frame_len : ℕ) (old : Response)
    → lo < 2 ^ 8
    → hi < 2 ^ 8
    → l ≡ suc (length payload)
    → crc16 (l ∷ ack ∷ payload) ≢ lo + hi * 256
    → protocol_parse_response
        (some (protocol_sof ∷ l ∷ ack ∷ payload ++ (lo ∷ hi ∷ more)))
        frame_len
        (some old)
      ≡ bad old
wrong_checksum l ack payload more lo hi frame_len old p q measured wrong =
    parse_shape protocol_sof l ack payload more lo hi frame_len old p q measured ∙ ground arith

-- A response frame in which one byte behind LEN and before the checksum was changed is reported as
-- a bad frame, and the response is left alone.
pub parse-damaged :
    (ack ack' : ℕ) (payload payload' before after more : List ℕ) (x y frame_len : ℕ)
    (old : Response)
    → x < 2 ^ 8
    → y < 2 ^ 8
    → x ≢ y
    → ack ∷ payload ≡ before ++ (x ∷ after)
    → ack' ∷ payload' ≡ before ++ (y ∷ after)
    → protocol_parse_response
        (some (
          protocol_sof ∷ suc (length payload) ∷ ack' ∷ payload'
          ++ (crc_bytes (crc16 (reply_body ack payload)) ++ more)))
        frame_len
        (some old)
      ≡ bad old
parse-damaged ack ack' payload payload' before after more x y frame_len old p q differ sent got =
    let crc : ℕ = crc16 (reply_body ack payload) in
    let same_length : length payload' ≡ length payload = omega (
      arith,
      ap length sent,
      ap length got,
      length-append before (x ∷ after),
      length-append before (y ∷ after),
    ) in
    let l : ℕ = suc (length payload) in
    let wrong : crc16 (l ∷ ack' ∷ payload') ≢ crc % 256 + crc / 256 * 256 = λ e. differ (
      crc16-byte_injective (l ∷ before) after x y p q (
        ap (λ (body : List ℕ). crc16 (l ∷ body)) (sym sent)
        ∙ halves crc
        ∙ sym e
        ∙ ap (λ (body : List ℕ). crc16 (l ∷ body)) got)) in
    wrong_checksum l ack' payload' more (crc % 256) (crc / 256) frame_len old (omega arith)
      (omega (arith, crc16-lt (reply_body ack payload))) (omega (arith, same_length)) wrong
  where
    halves : (n : ℕ) → n ≡ n % 256 + n / 256 * 256
    halves n = omega arith
