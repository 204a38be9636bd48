-- ===== src/Protocol/Build/Frame.antt =====
-- The layout of a command frame, and that `build_frame` writes it.
use mcu_co_sdk.Common.{ℕ, suc, ◌+◌, ◌-◌, ◌/◌, ◌%◌, ◌^◌, ◌≤◌, ◌<◌, ◌≡◌, refl, ap, ◌∙◌, ◌⊎◌, arith}
use mcu_co_sdk.Common.{List, [], ◌∷◌, ◌++◌, some, length, drop, set, overwrite, copy_loop}
use mcu_co_sdk.Common.{
  length-append, set-overwrite, overwrite-append, overwrite-front, take-append, copy_loop-overwrite,
  set-set-overwrite, take_all,
}
use mcu_co_sdk.Common.{bit_and, u8, Option, none}
use mcu_co_sdk.Common.Int.{ℤ, pos, negsuc, neg_ℕ}
use mcu_co_sdk.Common.Bits.{bit_and_byte}
use mcu_co_sdk.Crc16.{crc16_compute}
use mcu_co_sdk.Crc16.Fold.{crc16, crc16-lt, crc16_compute-crc16}
use mcu_co_sdk.Values.{mcuco_status_err_arg}
use mcu_co_sdk.Protocol.Defs.{Opcode, opcode_code, protocol_sof, protocol_max_payload}
use mcu_co_sdk.Protocol.Build.{fill_frame, build_frame}

-- SOF · OPCODE · LEN · PAYLOAD · CRC_L · CRC_H, the CRC over OPCODE, LEN and PAYLOAD.
abbrev pub frame_body : Opcode → List ℕ → List ℕ
frame_body opcode payload = opcode_code opcode ∷ length payload ∷ payload

abbrev pub crc_bytes : ℕ → List ℕ
crc_bytes crc = crc % 256 ∷ crc / 256 ∷ []

unfoldable pub command_frame : Opcode → List ℕ → List ℕ
command_frame opcode payload =
    protocol_sof ∷ frame_body opcode payload ++ crc_bytes (crc16 (frame_body opcode payload))

pub opcode_code-byte : (o : Opcode) → opcode_code o % 256 ≡ opcode_code o
unfolding opcode_code
opcode_code-byte o = ground arith

pub length-command_frame :
    (o : Opcode) (payload : List ℕ) → length (command_frame o payload) ≡ 5 + length payload
unfolding command_frame
length-command_frame o payload =
    omega (arith, length-append payload (crc_bytes (crc16 (frame_body o payload))))

-- The header and the payload, as one write at the front.
fill_body :
    (o : Opcode) (payload buffer : List ℕ)
    → length payload ≤ 32
    → copy_loop
        (length payload)
        0
        payload
        0
        0
        (set (set (set buffer 0 protocol_sof) 1 (u8 (opcode_code o))) 2 (u8 (length payload)))
        3
      ≡ overwrite buffer 0 (protocol_sof ∷ frame_body o payload)
fill_body o payload buffer small =
    let fits : length payload % 256 ≡ length payload = omega arith in
    rw
      (
        copy_loop-overwrite (length payload) payload 0 0 _ 3 (omega arith),
        take_all (length payload) payload refl,
        opcode_code-byte o,
        fits,
      )
      (rw (set-overwrite buffer 0 protocol_sof, set-overwrite _ 1 _, set-overwrite _ 2 _)
        (rw (
          overwrite-append buffer 0 1 (protocol_sof ∷ []) (opcode_code o ∷ []) refl,
          overwrite-append buffer 0 2 (protocol_sof ∷ opcode_code o ∷ []) _ refl,
          overwrite-append buffer 0 3 (protocol_sof ∷ opcode_code o ∷ length payload ∷ []) _ refl,
        )))

-- The checksum is computed over OPCODE, LEN and PAYLOAD of the buffer.
fill_crc :
    (o : Opcode) (payload buffer : List ℕ)
    → 3 + length payload ≤ length buffer
    → crc16_compute
        (some (drop 1 (overwrite buffer 0 (protocol_sof ∷ frame_body o payload))))
        (length payload + 2)
      ≡ crc16 (frame_body o payload)
fill_crc o payload buffer fits =
    let body = frame_body o payload in
    let front = overwrite-front buffer (protocol_sof ∷ body) (omega arith) in
    rw front (
      crc16_compute-crc16 (body ++ drop (suc (length body)) buffer) (length payload + 2)
        (omega (arith, length-append body (drop (suc (length body)) buffer)))
      ∙ ap crc16 (take-append body _ (length payload + 2) (omega arith)))

fill_frame_lem :
    (o : Opcode) (payload buffer : List ℕ) (frame_len : ℕ)
    → length payload ≤ 32
    → frame_len ≡ 5 + length payload
    → frame_len ≤ length buffer
    → fill_frame o payload (length payload) buffer frame_len
      ≡ command_frame o payload ++ drop frame_len buffer
unfolding fill_frame command_frame
fill_frame_lem o payload buffer frame_len small e fits =
    let crc = crc16 (frame_body o payload) in
    let written = protocol_sof ∷ frame_body o payload in
    let low : u8 (bit_and crc 0xff) ≡ crc % 256 = omega (arith, bit_and_byte crc) in
    let high : u8 (crc / 2 ^ 8) ≡ crc / 256 = omega (arith, crc16-lt (frame_body o payload)) in
    let measured : length (written ++ crc_bytes crc) ≡ frame_len =
      omega (arith, length-command_frame o payload) in
    rw
      (
        fill_body o payload buffer small,
        fill_crc o payload buffer (omega arith),
        low,
        high,
        set-set-overwrite buffer written (frame_len - 2) (frame_len - 1) _ _ (omega arith)
            (omega arith),
      )
      (overwrite-front buffer (written ++ crc_bytes crc) (omega arith)
        ∙ ap (λ (n : ℕ). (written ++ crc_bytes crc) ++ drop n buffer) measured)

-- A payload of at most 32 bytes and a buffer with room for the frame: the frame is written at the
-- front, the rest of the buffer is left alone, and the frame's length is returned.
pub build_frame-command_frame :
    (o : Opcode) (payload buffer : List ℕ) (buffer_len : ℕ)
    → length payload ≤ protocol_max_payload
    → 5 + length payload ≤ buffer_len
    → buffer_len ≤ length buffer
    → build_frame o payload (length payload) (some buffer) buffer_len ≡ (
      pos (5 + length payload),
      some (command_frame o payload ++ drop (5 + length payload) buffer),
    )
unfolding build_frame
build_frame-command_frame o payload buffer buffer_len small room fits =
    ground (arith, fill_frame_lem o payload buffer (5 + length payload) small refl (omega arith))

-- What a call may leave behind for a payload, in a buffer that it was told has `capacity` bytes: a
-- frame of as many bytes as it returns, with the room for them and nothing changed behind them; or,
-- where a frame of the payload is longer than the buffer or the protocol allows, the error of a
-- rejected argument and nothing changed at all.
abbrev pub InCapacity : List ℕ → List ℕ → ℕ → ℤ × Option (List ℕ) → Type 0
InCapacity payload buffer capacity (n, none) = ⊥
InCapacity payload buffer capacity (pos n, some b) =
    (n ≡ 5 + length payload)
    × (n ≤ capacity)
    × (n ≤ 37)
    × (length b ≡ length buffer)
    × (drop n b ≡ drop n buffer)
InCapacity payload buffer capacity (negsuc n, some b) =
    ((capacity < 5 + length payload) ⊎ (37 < 5 + length payload))
    × (negsuc n ≡ neg_ℕ mcuco_status_err_arg)
    × (b ≡ buffer)
