-- ===== src/WsProtocol/Tests.antt =====
-- A frame of two bytes of text, and the theorems at it.
use libcore.Base.{false, ℕ, ◌≡◌, ◌≢◌, refl, arith, some, inl, [], ◌∷◌, ◌++◌, List}
use libcore.WsProtocol.{
  build_frame, decode_frame3, decode_frame2, frame, error, need_more, read_header, header, unmasked,
  unmask_from, length_bytes, header_len, is_known_opcode, is_allowed, message2,
}
use libcore.WsProtocol.RoundTrip.{as_client, masked_header, decode_frame3-build_frame}
use libcore.WsProtocol.Stream.{decode_frame3-append}

abbrev hi : List ℕ
hi = b'h' ∷ b'i' ∷ []

abbrev key : List ℕ
key = 1 ∷ 2 ∷ 3 ∷ 4 ∷ []

-- As a client sends it.
abbrev wire_hi : List ℕ
wire_hi = 129 ∷ 130 ∷ 1 ∷ 2 ∷ 3 ∷ 4 ∷ 105 ∷ 107 ∷ []

build_hi : build_frame 1 hi 100 ≡ some (129 ∷ 2 ∷ b'h' ∷ b'i' ∷ [])
unfolding build_frame is_known_opcode header_len length_bytes
build_hi = refl

as_client-hi : as_client key hi (129 ∷ 2 ∷ b'h' ∷ b'i' ∷ []) ≡ wire_hi
unfolding as_client masked_header unmask_from
as_client-hi = refl

decode_hi : decode_frame3 wire_hi ≡ frame hi 8 1
unfolding decode_frame3 is_allowed read_header unmasked unmask_from
decode_hi = refl

decode2_hi : decode_frame2 wire_hi 3 ≡ message2 (b'h' ∷ b'i' ∷ 0 ∷ []) 8 false
unfolding decode_frame2 read_header unmasked unmask_from
decode2_hi = refl

-- A close frame of one byte is built, and refused by the decoder of the other side.
close_of_one :
    (build_frame 8 (7 ∷ []) 100 ≡ some (136 ∷ 1 ∷ 7 ∷ []))
    × (decode_frame3 (as_client key (7 ∷ []) (136 ∷ 1 ∷ 7 ∷ [])) ≡ error)
unfolding build_frame is_known_opcode header_len length_bytes as_client masked_header unmask_from
    decode_frame3 is_allowed
close_of_one = (refl, refl)

decode_frame3-build_frame_example :
    decode_frame3 (as_client key hi (129 ∷ 2 ∷ b'h' ∷ b'i' ∷ []) ++ (9 ∷ [])) ≡ frame hi 8 1
decode_frame3-build_frame_example =
    decode_frame3-build_frame 1 100 key hi (129 ∷ 2 ∷ b'h' ∷ b'i' ∷ []) (9 ∷ []) build_hi refl
      (inl (omega arith))

not_pending : decode_frame3 wire_hi ≢ need_more
unfolding decode_frame3 is_allowed read_header unmasked unmask_from
not_pending e = cc

decode_frame3-append_example : decode_frame3 (wire_hi ++ (9 ∷ [])) ≡ decode_frame3 wire_hi
decode_frame3-append_example = decode_frame3-append wire_hi (9 ∷ []) not_pending

header_hi : read_header 4 wire_hi ≡ header 2 2
unfolding read_header
header_hi = refl
