-- ===== src/WsProtocol/Bounds.antt =====
-- What the decoders consume and write.
use libcore.Base.{ℕ, ◌+◌, ◌%◌, ◌≤◌, ◌≡◌, ◌≢◌, arith, ◌∙◌, true}
use libcore.Base.{List, [], ◌∷◌, ◌++◌, some, inl, inr, length, take, drop, length-append}
use libcore.Base.{length-take, length-drop}
use libcore.WsProtocol.{
  header, read_header, unmasked, decode_frame, decode_frame2, Decoded2, closed2, message2,
  decode_frame3, frame, is_allowed, is_masked, byte_at, is_known_opcode, max_ws_payload_size,
  op_close,
}
use libcore.WsProtocol.Stream.{Header-cases}
use libcore.WsProtocol.RoundTrip.{length-unmask_from}

length-unmasked :
    (buf : List ℕ) (hl n : ℕ) → hl + 4 + n ≤ length buf → length (unmasked buf hl n) ≡ n
unfolding unmasked
length-unmasked buf hl n h =
    length-unmask_from (take 4 (drop hl buf)) 0 (take n (drop (hl + 4) buf))
    ∙ omega (arith, length-take n (drop (hl + 4) buf), length-drop (hl + 4) buf)

read_header-len :
    (behind : ℕ) (buf : List ℕ) (n hl : ℕ) → read_header behind buf ≡ header n hl → 2 ≤ hl
unfolding read_header
read_header-len behind buf n hl e = ground arith

-- A decoded frame lies within the bytes received: it consumes a header of at least two bytes, the
-- key and the payload, no more than there are. Its payload is no longer than a megabyte, and its
-- opcode is one that the protocol knows.
pub decode_frame3_bounds :
    (buf payload : List ℕ) (consumed opcode : ℕ)
    → decode_frame3 buf ≡ frame payload consumed opcode
    → (consumed ≤ length buf)
      × (length payload + 6 ≤ consumed)
      × (length payload ≤ max_ws_payload_size)
      × (is_known_opcode opcode ≡ true)
unfolding decode_frame3 is_allowed is_known_opcode
decode_frame3_bounds buf payload consumed opcode e = elim (Header-cases (read_header 0 buf)) [
  | inl cut ↦ ground arith
  | inr (n, hl, read) ↦ ground (arith, read_header-len 0 buf n hl read, length-unmasked buf hl n)
]

-- What the second decoder returns as written.
abbrev pub written2 : Decoded2 → List ℕ
written2 (closed2 out consumed) = out
written2 (message2 out consumed ping) = out
written2 _ = []

-- The second decoder never writes past the end of its output, the NUL included.
pub decode_frame2_fits :
    (buf : List ℕ) (max_out : ℕ) → length (written2 (decode_frame2 buf max_out)) ≤ max_out
unfolding decode_frame2
decode_frame2_fits buf max_out = elim (Header-cases (read_header 0 buf)) [
  | inl cut ↦ ground arith
  | inr (n, hl, read) ↦
      ground (arith, length-unmasked buf hl n, length-append (unmasked buf hl n) (0 ∷ []))
]

-- The first decoder does: every complete masked frame, other than a close frame, whose payload is as
-- long as the output has room for is accepted, and the NUL is written one byte past the end.
pub decode_frame_overruns :
    (buf : List ℕ) (hl max_out : ℕ)
    → read_header 4 buf ≡ header max_out hl
    → byte_at buf 0 % 16 ≢ op_close
    → is_masked buf ≡ true
    → hl + 4 + max_out ≤ length buf
    → (out : List ℕ) × (decode_frame buf max_out ≡ some out) × (length out ≡ max_out + 1)
unfolding decode_frame
decode_frame_overruns buf hl max_out read opcode masked complete = (
  unmasked buf hl max_out ++ (0 ∷ []),
  ground (arith, read_header-len 4 buf max_out hl read),
  omega (
    arith,
    length-unmasked buf hl max_out complete,
    length-append (unmasked buf hl max_out) (0 ∷ []),
  ),
)
