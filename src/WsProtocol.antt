-- ===== src/WsProtocol.antt =====
-- src/ws_protocol.c: WebSocket frames. A buffer is the list of its bytes, each below 256, and
-- `in_len` is its length; no pointer is NULL. `x & (2 ^ k - 1)` is written `x % 2 ^ k`, `x >> k` is
-- `x / 2 ^ k`, and `|` of fields that do not overlap is their sum.
pub mod Length
pub mod Stream
pub mod RoundTrip
pub mod Bounds
mod Tests
use Prim.Native.Nat.{bit_xor}
use libcore.Base.{ℕ, zero, suc, ◌+◌, ◌-◌, ◌*◌, ◌/◌, ◌%◌, ◌^◌, Bool, true, false, not, ◌&&◌, ◌||◌}
use libcore.Base.{Option, none, some, List, [], ◌∷◌, ◌++◌, ltb, leb, ◌==◌, if◌then◌else◌}
use libcore.Base.{length, get_or, take, drop}

abbrev pub max_ws_payload_size : ℕ
max_ws_payload_size = 1024 * 1024

abbrev pub op_text : ℕ
op_text = 1

abbrev pub op_binary : ℕ
op_binary = 2

abbrev pub op_close : ℕ
op_close = 8

abbrev pub op_ping : ℕ
op_ping = 9

abbrev pub op_pong : ℕ
op_pong = 10

abbrev pub byte_at : List ℕ → ℕ → ℕ
byte_at buf i = get_or buf i 0

-- The length bytes behind the first byte of a frame that is not masked.
pub length_bytes : ℕ → List ℕ
length_bytes n =
    if leb n 125
    then n ∷ []
    else if leb n 65535
    then 126 ∷ n / 256 % 256 ∷ n % 256 ∷ []
    else 127
      ∷ n / 2 ^ 56 % 256
      ∷ n / 2 ^ 48 % 256
      ∷ n / 2 ^ 40 % 256
      ∷ n / 2 ^ 32 % 256
      ∷ n / 2 ^ 24 % 256
      ∷ n / 2 ^ 16 % 256
      ∷ n / 2 ^ 8 % 256
      ∷ n % 256
      ∷ []

pub header_len : ℕ → ℕ
header_len n = if leb n 125 then 2 else if leb n 65535 then 4 else 10

-- `none` is a return of 0; else what stands in `out_buf`, as many bytes as are returned.
pub build_text_frame : List ℕ → ℕ → Option (List ℕ)
build_text_frame msg max_len =
    let msg_len = length msg in
    if ltb max_len (header_len msg_len + msg_len)
    then none
    else some (0x81 ∷ (length_bytes msg_len ++ msg))

pub is_known_opcode : ℕ → Bool
is_known_opcode op =
    op == op_text || (op == op_binary || (op == op_close || (op == op_ping || op == op_pong)))

pub build_frame : ℕ → List ℕ → ℕ → Option (List ℕ)
build_frame opcode msg max_len =
    let msg_len = length msg in
    if ltb max_ws_payload_size msg_len
    then none
    else if not (is_known_opcode opcode)
    then none
    else if opcode / 8 % 2 == 1 && ltb 125 msg_len
    then none
    else if ltb max_len (header_len msg_len) || ltb (max_len - header_len msg_len) msg_len
    then none
    else some ((128 + opcode % 16) ∷ (length_bytes msg_len ++ msg))

-- The payload length and the bytes in front of the mask, where the buffer holds the length bytes and
-- `behind` more bytes.
pub data Header : Type 0 where
  header : ℕ → ℕ → Header
  short : Header

pub big_endian_2 : List ℕ → ℕ
big_endian_2 buf = byte_at buf 2 * 256 + byte_at buf 3

pub big_endian_8 : List ℕ → ℕ
big_endian_8 buf =
    byte_at buf 2 * 2 ^ 56
    + byte_at buf 3 * 2 ^ 48
    + byte_at buf 4 * 2 ^ 40
    + byte_at buf 5 * 2 ^ 32
    + byte_at buf 6 * 2 ^ 24
    + byte_at buf 7 * 2 ^ 16
    + byte_at buf 8 * 2 ^ 8
    + byte_at buf 9

pub read_header : ℕ → List ℕ → Header
read_header behind buf =
    let in_len = length buf in
    let len7 = byte_at buf 1 % 128 in
    if len7 == 126
    then (if ltb in_len (4 + behind) then short else header (big_endian_2 buf) 4)
    else if len7 == 127
    then (if ltb in_len (10 + behind) then short else header (big_endian_8 buf) 10)
    else header len7 2

-- `payload[i] ^= mask[i % 4]`, from index `i` on.
pub unmask_from : List ℕ → ℕ → List ℕ → List ℕ
unmask_from mask i [] = []
unmask_from mask i (b ∷ bs) = bit_xor b (byte_at mask (i % 4)) ∷ unmask_from mask (i + 1) bs

pub unmasked : List ℕ → ℕ → ℕ → List ℕ
unfolding unmask_from
unmasked buf header_len payload_len =
    unmask_from (take 4 (drop header_len buf)) 0 (take payload_len (drop (header_len + 4) buf))

abbrev pub is_masked : List ℕ → Bool
is_masked buf = byte_at buf 1 / 128 % 2 == 1

-- The first decoder, for an output of fewer than 2^63 bytes: what it writes to `out_msg`, the NUL behind the payload included. `none` is -1,
-- and a return is the length of the payload.
pub decode_frame : List ℕ → ℕ → Option (List ℕ)
decode_frame buf max_out =
    if ltb (length buf) 6
    then none
    else if byte_at buf 0 % 16 == op_close
    then none
    else if not (is_masked buf)
    then none
    else elim (read_header 4 buf) [
      | short ↦ none
      | header payload_len hl ↦
          if ltb max_out payload_len
          then none
          else if ltb (length buf) (hl + 4 + payload_len)
          then none
          else some (unmasked buf hl payload_len ++ (0 ∷ []))
    ]

-- What the second decoder returns: 0, -2, -1 for a close frame, or the payload's length.
pub data Decoded2 : Type 0 where
  need_more2 : Decoded2
  invalid2 : Decoded2
  -- What is written to `out_msg`, what is consumed, and whether it is a ping.
  closed2 : List ℕ → ℕ → Decoded2
  message2 : List ℕ → ℕ → Bool → Decoded2

pub decode_frame2 : List ℕ → ℕ → Decoded2
decode_frame2 buf max_out =
    if ltb (length buf) 2
    then need_more2
    else if not (is_masked buf)
    then invalid2
    else elim (read_header 0 buf) [
      | short ↦ need_more2
      | header payload_len hl ↦
          if ltb max_ws_payload_size payload_len
          then invalid2
          else if ltb max_out (payload_len + 1)
          then invalid2
          else if ltb (length buf) (hl + 4 + payload_len)
          then need_more2
          else let written = unmasked buf hl payload_len ++ (0 ∷ []) in
            let frame_total = hl + 4 + payload_len in
            let opcode = byte_at buf 0 % 16 in
            if opcode == op_close
            then closed2 written frame_total
            else message2 written frame_total (opcode == op_ping)
    ]

pub data Decoded : Type 0 where
  error : Decoded
  need_more : Decoded
  -- The payload, the bytes consumed, the opcode.
  frame : List ℕ → ℕ → ℕ → Decoded

-- The `switch` on the opcode, with the 7-bit length.
pub is_allowed : ℕ → Bool → ℕ → Bool
is_allowed opcode fin len7 =
    if opcode == op_text || opcode == op_binary
    then fin
    else if opcode == op_close || (opcode == op_ping || opcode == op_pong)
    then fin && (leb len7 125 && not (opcode == op_close && len7 == 1))
    else false

pub decode_frame3 : List ℕ → Decoded
decode_frame3 buf =
    if ltb (length buf) 2
    then need_more
    else let fin = byte_at buf 0 / 128 % 2 == 1 in
      let rsv = byte_at buf 0 / 16 % 8 in
      let opcode = byte_at buf 0 % 16 in
      if not (rsv == 0)
      then error
      else if not (is_masked buf)
      then error
      else if not (is_allowed opcode fin (byte_at buf 1 % 128))
      then error
      else elim (read_header 0 buf) [
        | short ↦ need_more
        | header payload_len hl ↦
            if ltb max_ws_payload_size payload_len
            then error
            else if ltb (length buf) (hl + 4 + payload_len)
            then need_more
            else frame (unmasked buf hl payload_len) (hl + 4 + payload_len) opcode
      ]

-- The payload is unmasked in place: the buffer after a call.
pub buffer_after : List ℕ → List ℕ
buffer_after buf = elim (decode_frame3 buf) [
  | error ↦ buf
  | need_more ↦ buf
  | frame payload consumed opcode ↦
      take (consumed - length payload) buf ++ (payload ++ drop consumed buf)
]
