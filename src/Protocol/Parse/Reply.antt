-- ===== src/Protocol/Parse/Reply.antt =====
-- The response frames of the protocol, and that the parser accepts these and no others.
use mcu_co_sdk.Common.{
  ℕ, zero, suc, ◌+◌, ◌-◌, ◌*◌, ◌/◌, ◌%◌, ◌^◌, ◌≤◌, ◌<◌, ◌≡◌, refl, sym, ap, ◌∙◌, ◌⊎◌, arith,
}
use mcu_co_sdk.Common.{
  List, [], ◌∷◌, ◌++◌, Option, some, length, take, drop, get_or, overwrite, AreBytes,
}
use mcu_co_sdk.Common.{
  ◌!=◌, ◌||◌, ltb, if◌then◌else◌, length-append, copy_loop-overwrite, take-append,
}
use mcu_co_sdk.Common.{length-take}
use mathlib.Core.Path.{subst}
use mathlib.Core.List.{append_assoc}
use mcu_co_sdk.Common.Bits.{bit_or_fields}
use mcu_co_sdk.Crc16.{crc16_compute}
use mcu_co_sdk.Crc16.Fold.{crc16, crc16-lt, crc16_compute-crc16}
use mcu_co_sdk.Values.{mcuco_status_ok, mcuco_status_err_bad_frame}
use mcu_co_sdk.Protocol.Defs.{Response, protocol_sof}
use mcu_co_sdk.Protocol.Build.Frame.{crc_bytes}
use mcu_co_sdk.Protocol.Parse.{Parsed, received_crc, fill_response, protocol_parse_response}

-- LEN · ACK/NACK · DATA, which the checksum covers.
abbrev pub reply_body : ℕ → List ℕ → List ℕ
reply_body ack payload = suc (length payload) ∷ ack ∷ payload

-- SOF · LEN · ACK/NACK · DATA · CRC_L · CRC_H
abbrev pub reply_frame : ℕ → List ℕ → List ℕ
reply_frame ack payload =
    protocol_sof ∷ suc (length payload) ∷ ack ∷ payload
    ++ crc_bytes (crc16 (reply_body ack payload))

-- What the client gets of it: the first bytes of the array are the data.
abbrev pub reply_of : ℕ → List ℕ → Response → Response
reply_of ack payload old = record {
  ack = ack != 0;
  data_len = length payload;
  bytes = overwrite old.bytes 0 payload;
}

get_or-append :
    (us vs : List ℕ) (i n : ℕ) → n ≡ length us + i → get_or (us ++ vs) n 0 ≡ get_or vs i 0
get_or-append [] vs i n e = ap (λ (k : ℕ). get_or vs k 0) (omega arith)
get_or-append (u ∷ us) vs i zero e = absurd (omega arith)
get_or-append (u ∷ us) vs i (suc n) e = get_or-append us vs i n (omega arith)

-- The checksum that stands behind the data.
received_crc-reply :
    (s l ack : ℕ) (payload more : List ℕ) (lo hi len : ℕ)
    → lo < 2 ^ 8
    → hi < 2 ^ 8
    → len ≡ suc (length payload)
    → received_crc (s ∷ l ∷ ack ∷ (payload ++ (lo ∷ hi ∷ more))) len ≡ lo + hi * 256
unfolding received_crc
received_crc-reply s l ack payload more lo hi len p q e =
    let low = get_or-append (s ∷ l ∷ ack ∷ payload) (lo ∷ hi ∷ more) 0 (2 + len) (omega arith) in
    let high = get_or-append (s ∷ l ∷ ack ∷ payload) (lo ∷ hi ∷ more) 1 (3 + len) (omega arith) in
    rw (low, high) (omega (arith, bit_or_fields 8 lo hi p))

computed_crc-reply :
    (s l ack : ℕ) (payload more : List ℕ) (len : ℕ)
    → len ≡ suc (length payload)
    → crc16_compute (some (drop 1 (s ∷ l ∷ ack ∷ (payload ++ more)))) (len + 1)
      ≡ crc16 (l ∷ ack ∷ payload)
computed_crc-reply s l ack payload more len e =
    crc16_compute-crc16 (l ∷ ack ∷ payload ++ more) (len + 1)
      (omega (arith, length-append payload more))
    ∙ ap crc16 (take-append (l ∷ ack ∷ payload) more (len + 1) (omega arith))

fill_response-reply :
    (s l ack : ℕ) (payload more : List ℕ) (old : Response) (len : ℕ)
    → len ≡ suc (length payload)
    → fill_response (s ∷ l ∷ ack ∷ (payload ++ more)) len old ≡ reply_of ack payload old
unfolding fill_response
fill_response-reply s l ack payload more old len e =
    let count : len - 1 ≡ length payload = omega arith in
    rw count (
      rw (
        copy_loop-overwrite (length payload) (s ∷ l ∷ ack ∷ payload ++ more) 3 0 old.bytes 0
            (omega (arith, length-append payload more)),
        take-append payload more (length payload) refl,
      ))

abbrev pub bad : Response → Parsed
bad old = (mcuco_status_err_bad_frame, some old)

-- The parser at an array with room for the frame that its LEN announces.
pub parse_shape :
    (s l ack : ℕ) (payload more : List ℕ) (lo hi frame_len : ℕ) (old : Response)
    → lo < 2 ^ 8
    → hi < 2 ^ 8
    → l ≡ suc (length payload)
    → protocol_parse_response
        (some (s ∷ l ∷ ack ∷ payload ++ (lo ∷ hi ∷ more)))
        frame_len
        (some old)
      ≡ (if ltb frame_len 5 || s != protocol_sof
          then bad old
          else if ltb l 1 || ltb 5 l
          then bad old
          else if ltb frame_len (4 + l)
          then bad old
          else if crc16 (l ∷ ack ∷ payload) != lo + hi * 256
          then bad old
          else (mcuco_status_ok, some (reply_of ack payload old)))
unfolding protocol_parse_response
parse_shape s l ack payload more lo hi frame_len old p q e = rw (
  computed_crc-reply s l ack payload (lo ∷ hi ∷ more) l e,
  received_crc-reply s l ack payload more lo hi l p q e,
  fill_response-reply s l ack payload (lo ∷ hi ∷ more) old l e,
)

-- A response frame of at most four data bytes is accepted, and its fields are handed out. Bytes
-- behind the frame are ignored.
pub parse-reply_frame :
    (ack : ℕ) (payload more : List ℕ) (frame_len : ℕ) (old : Response)
    → length payload ≤ 4
    → 5 + length payload ≤ frame_len
    → protocol_parse_response (some (reply_frame ack payload ++ more)) frame_len (some old)
      ≡ (mcuco_status_ok, some (reply_of ack payload old))
parse-reply_frame ack payload more frame_len old small fits =
    let crc = crc16 (reply_body ack payload) in
    let whole : crc % 256 + crc / 256 * 256 ≡ crc = omega arith in
    rw (append_assoc payload (crc_bytes crc) more) (
      parse_shape protocol_sof (suc (length payload)) ack payload more (crc % 256) (crc / 256)
        frame_len old (omega arith) (omega (arith, crc16-lt (reply_body ack payload))) refl
      ∙ ground arith)

-- The array cut where the checksum stands.
split_frame :
    (n : ℕ) (rest : List ℕ)
    → n + 2 ≤ length rest
    → rest ≡ take n rest ++ (get_or rest n 0 ∷ get_or rest (suc n) 0 ∷ drop (suc (suc n)) rest)
split_frame zero [] h = absurd (omega arith)
split_frame zero (a ∷ []) h = absurd (omega arith)
split_frame zero (a ∷ b ∷ rest) h = refl
split_frame (suc n) [] h = absurd (omega arith)
split_frame (suc n) (a ∷ rest) h = ap (λ t. a ∷ t) (split_frame n rest (omega arith))

get_or-byte : (xs : List ℕ) (i : ℕ) → AreBytes xs → get_or xs i 0 < 2 ^ 8
get_or-byte [] i h = omega arith
get_or-byte (x ∷ xs) zero h = h.0
get_or-byte (x ∷ xs) (suc i) h = get_or-byte xs i h.1

parse_short :
    (frame : List ℕ) (frame_len : ℕ) (old : Response)
    → frame_len < 5
    → protocol_parse_response (some frame) frame_len (some old) ≡ bad old
unfolding protocol_parse_response
parse_short frame frame_len old h = ground arith

-- What the guards let through.
parse_guards :
    (s l : ℕ) (rest : List ℕ) (frame_len : ℕ) (old : Response) {r : Option Response}
    → protocol_parse_response (some (s ∷ l ∷ rest)) frame_len (some old) ≡ (mcuco_status_ok, r)
    → (s ≡ protocol_sof) × (1 ≤ l) × (l ≤ 5) × (4 + l ≤ frame_len)
unfolding protocol_parse_response
parse_guards s l rest frame_len old e = ground arith

-- A frame that was accepted, and how the parser saw it.
abbrev pub Accepted : List ℕ → ℕ → Response → Option Response → Type 0
Accepted frame frame_len old r =
    (ack : ℕ) × (payload : List ℕ) × (more : List ℕ) × (frame ≡ reply_frame ack payload ++ more)
    × (length payload ≤ 4)
    × (5 + length payload ≤ frame_len)
    × (r ≡ some (reply_of ack payload old))

parse_split :
    (s l ack : ℕ) (payload more : List ℕ) (lo hi frame_len : ℕ) (old : Response)
    {r : Option Response}
    → lo < 2 ^ 8
    → hi < 2 ^ 8
    → l ≡ suc (length payload)
    → protocol_parse_response
        (some (s ∷ l ∷ ack ∷ payload ++ (lo ∷ hi ∷ more)))
        frame_len
        (some old)
      ≡ (mcuco_status_ok, r)
    → Accepted (s ∷ l ∷ ack ∷ payload ++ (lo ∷ hi ∷ more)) frame_len old r
parse_split s l ack payload more lo hi frame_len old {r} p q e h =
    let shape = sym (parse_shape s l ack payload more lo hi frame_len old p q e) ∙ h in
    let g = parse_guards s l (ack ∷ payload ++ (lo ∷ hi ∷ more)) frame_len old h in
    let sum : crc16 (l ∷ ack ∷ payload) ≡ lo + hi * 256 = ground arith in
    let low : crc16 (l ∷ ack ∷ payload) % 256 ≡ lo = omega arith in
    let high : crc16 (l ∷ ack ∷ payload) / 256 ≡ hi = omega arith in
    let result : r ≡ some (reply_of ack payload old) = ground arith in
    (
      ack,
      payload,
      more,
      rw append_assoc (rw (g.0, ← low, ← high, e)),
      omega (arith, g),
      omega (arith, g),
      result,
    )

-- In an array of bytes that holds `frame_len` of them, what the parser accepts is a response frame
-- of at most four data bytes that starts the array and fits in `frame_len`: its checksum is right,
-- and the response holds its fields.
pub parse-Accepted :
    (frame : List ℕ) (frame_len : ℕ) (old : Response) {r : Option Response}
    → AreBytes frame
    → frame_len ≤ length frame
    → protocol_parse_response (some frame) frame_len (some old) ≡ (mcuco_status_ok, r)
    → Accepted frame frame_len old r
parse-Accepted [] frame_len old b h e = cc (parse_short [] frame_len old (omega arith))
parse-Accepted (s ∷ []) frame_len old b h e = cc (parse_short (s ∷ []) frame_len old (omega arith))
parse-Accepted (s ∷ l ∷ []) frame_len old b h e =
    cc (parse_short (s ∷ l ∷ []) frame_len old (omega arith))
parse-Accepted (s ∷ l ∷ ack ∷ rest) frame_len old {r} b h e =
    let g = parse_guards s l (ack ∷ rest) frame_len old e in
    let n = l - 1 in
    let room : n + 2 ≤ length rest = omega (arith, g) in
    let cut = split_frame n rest room in
    let measured : l ≡ suc (length (take n rest)) =
      omega (arith, g, length-take n rest (omega arith)) in
    subst (λ t. Accepted (s ∷ l ∷ ack ∷ t) frame_len old r) (sym cut)
      (parse_split s l ack (take n rest) (drop (suc (suc n)) rest) (get_or rest n 0)
        (get_or rest (suc n) 0) frame_len old (get_or-byte rest n b.1.1.1)
        (get_or-byte rest (suc n) b.1.1.1) measured
        (subst
          (λ t.
            protocol_parse_response (some (s ∷ l ∷ ack ∷ t)) frame_len (some old)
            ≡ (mcuco_status_ok, r))
          cut e))

-- The parser accepts, or reports a bad frame and leaves the response alone.
pub parse_status :
    (frame : List ℕ) (frame_len : ℕ) (old : Response)
    → ((protocol_parse_response (some frame) frame_len (some old)).0 ≡ mcuco_status_ok)
      ⊎ (protocol_parse_response (some frame) frame_len (some old) ≡ bad old)
unfolding protocol_parse_response
parse_status frame frame_len old = ground arith
