-- ===== src/Asn1/Tests.antt =====
-- The theorems on ASN.1 at a length of two bytes and at a short string.
use libcore.Base.{◌≤◌, min, ◌≡◌, refl, arith, true, some, [], ◌∷◌, ◌++◌, length}
use libcore.Asn1.{encode_length, length_bytes, put_reversed, encode_string}
use libcore.Asn1.Unsigned.{
  gauge32, is_unsigned, encode_unsigned, decode_unsigned, without_zeros, value_bytes,
  decode_unsigned-encode_unsigned,
}

put_300 : encode_length 3 300 ≡ (true, 130 ∷ 1 ∷ 44 ∷ [])
unfolding encode_length length_bytes put_reversed
put_300 = refl

room_for_300 : (encode_length 3 300).0 ≡ true
unfolding encode_length length_bytes put_reversed
room_for_300 = refl

room_for_hi : (encode_string 4 (b'h' ∷ b'i' ∷ [])).0 ≡ true
unfolding encode_string encode_length length_bytes put_reversed
room_for_hi = refl

-- 200 has its highest bit set: a zero goes in front.
put_200 : encode_unsigned 9 200 gauge32 ≡ (true, 66 ∷ 2 ∷ 0 ∷ 200 ∷ [])
unfolding encode_unsigned without_zeros value_bytes
put_200 = refl

room_for_200 : (encode_unsigned 9 200 gauge32).0 ≡ true
unfolding encode_unsigned without_zeros value_bytes
room_for_200 = refl

gauge_known : is_unsigned gauge32 ≡ true
unfolding is_unsigned
gauge_known = refl

decode_unsigned-encode_unsigned_example :
    (decode_unsigned ((encode_unsigned 9 200 gauge32).1 ++ 5 ∷ []) ≡ some (200, 5 ∷ []))
    × (length ((encode_unsigned 9 200 gauge32).1) ≤ min 7 9)
decode_unsigned-encode_unsigned_example =
    decode_unsigned-encode_unsigned 9 200 gauge32 (5 ∷ []) (omega arith) gauge_known room_for_200
