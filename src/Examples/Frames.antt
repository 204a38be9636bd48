-- ===== src/Examples/Frames.antt =====
-- A damaged frame at concrete data.
use mcu_co_sdk.Common.{◌≡◌, refl, [], ◌∷◌, ◌++◌, some, arith}
use mcu_co_sdk.Crc16.Fold.{crc16}
use mcu_co_sdk.Protocol.Defs.{protocol_sof, empty_response}
use mcu_co_sdk.Protocol.Build.Frame.{crc_bytes}
use mcu_co_sdk.Protocol.Parse.{protocol_parse_response}
use mcu_co_sdk.Protocol.Parse.Reply.{reply_body, bad}
use mcu_co_sdk.Protocol.Parse.Damaged.{parse-damaged}

-- The level 1 arrives as the level 0.
parse-damaged_example :
    protocol_parse_response
      (some (protocol_sof ∷ 2 ∷ 1 ∷ 0 ∷ [] ++ (crc_bytes (crc16 (reply_body 1 (1 ∷ []))) ++ [])))
      6
      (some empty_response)
    ≡ bad empty_response
parse-damaged_example =
    parse-damaged 1 1 (1 ∷ []) (0 ∷ []) (1 ∷ []) [] [] 1 0 6 empty_response (omega arith)
      (omega arith) (omega arith) refl refl
