-- ===== src/Protocol/Commands/Accepts.antt =====
-- Every builder accepts exactly the values of the protocol, and writes the frame of its command.
use mcu_co_sdk.Common.{ℕ, ◌+◌, ◌≤◌, ◌≡◌, refl, arith, List, ◌++◌, some, length, drop}
use mcu_co_sdk.Common.{◌∙◌}
use mcu_co_sdk.Common.Int.{pos, neg_ℕ}
use mcu_co_sdk.Protocol.Defs.{protocol_max_command_frame}
use mcu_co_sdk.Values.{mcuco_status_err_arg}
use mcu_co_sdk.Endianess.RoundTrip.{put_u16_le_lem, put_u32_le_lem}
use mcu_co_sdk.Protocol.Build.{build_frame}
use mcu_co_sdk.Protocol.Build.Frame.{command_frame, build_frame-command_frame}
use mcu_co_sdk.Protocol.Commands.{Buffer}
use mcu_co_sdk.Protocol.Commands.Request.{
  Request, InRange, opcode_of, payload_of, build, length-payload_of, probe, reset, gpio_cfg,
  irq_bind, group_cfg, channel_set,
}

-- The values of the protocol pass the guards, and reach the frame unchanged.
build-InRange :
    (r : Request) (buffer : Buffer) (buffer_len : ℕ)
    → InRange r
    → build r buffer buffer_len
      ≡ build_frame (opcode_of r) (payload_of r) (length (payload_of r)) buffer buffer_len
unfolding build
build-InRange probe buffer n h = refl
build-InRange reset buffer n h = refl
build-InRange (gpio_cfg dir port pin) buffer n h = ground arith
build-InRange (group_cfg freq_hz group) buffer n h = rw put_u32_le_lem (ground arith)
build-InRange (channel_set duty port pin) buffer n h = rw put_u16_le_lem (ground arith)
build-InRange _ buffer n h = ground arith

-- With a value that the protocol does not have every builder returns the error of a rejected
-- argument and leaves the buffer as it was, a NULL buffer too.
pub build-rejects :
    (r : Request) (buffer : Buffer) (buffer_len : ℕ)
    → ¬ InRange r
    → build r buffer buffer_len ≡ (neg_ℕ mcuco_status_err_arg, buffer)
unfolding build
build-rejects probe buffer n h = absurd (h tt)
build-rejects reset buffer n h = absurd (h tt)
build-rejects (irq_bind edge in_port in_pin action out_port out_pin) buffer n h = ground arith
build-rejects _ buffer n h = ground arith

-- With values that the protocol has and a buffer of the size that the header asks for, every
-- builder writes the frame of its command at the front of the buffer, leaves the rest of the buffer
-- alone and returns the frame's length.
pub build-command_frame :
    (r : Request) (buffer : List ℕ) (buffer_len : ℕ)
    → InRange r
    → protocol_max_command_frame ≤ buffer_len
    → buffer_len ≤ length buffer
    → build r (some buffer) buffer_len ≡ (
      pos (5 + length (payload_of r)),
      some (command_frame (opcode_of r) (payload_of r) ++ drop (5 + length (payload_of r)) buffer),
    )
build-command_frame r buffer buffer_len h room fits =
    build-InRange r (some buffer) buffer_len h
    ∙ build_frame-command_frame (opcode_of r) (payload_of r) buffer buffer_len
        (omega (arith, length-payload_of r)) (omega (arith, length-payload_of r)) fits
