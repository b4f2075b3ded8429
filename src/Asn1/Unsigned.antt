-- ===== src/Asn1/Unsigned.antt =====
-- src/asn1.c: the unsigned numbers of SNMP, of 32 bits: two's complement in as few bytes as there can be.
use libcore.Base.{
  ℕ, zero, suc, ◌+◌, ◌-◌, ◌*◌, ◌/◌, ◌%◌, ◌^◌, ◌<◌, ◌≤◌, ◌≡◌, arith, Bool, true, false, not, ◌||◌,
  ◌&&◌, Option, none, some, List, [], ◌∷◌, ◌++◌, ltb, ◌==◌, if◌then◌else◌, length, length-append,
  get_or, drop, min, Bool-cases, inl, inr,
}
use libcore.Asn1.{decode_length}
use libcore.Asn1.RoundTrip.{decode_short}

abbrev pub counter32 : ℕ
counter32 = 65

abbrev pub gauge32 : ℕ
gauge32 = 66

abbrev pub timeticks : ℕ
timeticks = 67

unfoldable pub is_unsigned : ℕ → Bool
is_unsigned tag = tag == counter32 || tag == gauge32 || tag == timeticks

-- The loop on the bytes of the value.
pub value_from : ℕ → ℕ → List ℕ → Option (ℕ × List ℕ)
value_from zero val bytes = some (val, bytes)
value_from (suc n) val [] = none
value_from (suc n) val (b ∷ bs) = value_from n (val * 256 % 2 ^ 32 + b) bs

-- A leading zero is there only in front of a byte from 128 on.
pub decode_value : ℕ → List ℕ → Option (ℕ × List ℕ)
decode_value len bytes =
    if ltb 1 len && get_or bytes 0 0 == 0
    then if ltb (get_or bytes 1 0) 128 then none else value_from (len - 1) 0 (drop 1 bytes)
    else if len == 5
    then none
    else value_from len 0 bytes

pub decode_unsigned : List ℕ → Option (ℕ × List ℕ)
decode_unsigned [] = none
decode_unsigned (tag ∷ bs) = if not (is_unsigned tag) then none else elim (decode_length bs) [
  | none ↦ none
  | some (len, bytes) ↦
      if len == 0 || ltb 5 len || ltb (length bytes) len then none else decode_value len bytes
]

-- The bytes from the first that has to stay.
unfoldable pub without_zeros : List ℕ → List ℕ
without_zeros [] = []
without_zeros (b ∷ []) = b ∷ []
without_zeros (b ∷ c ∷ bs) =
    let rest = without_zeros (c ∷ bs) in if b == 0 && ltb c 128 then rest else b ∷ c ∷ bs

unfoldable pub value_bytes : ℕ → List ℕ
value_bytes value =
    0 ∷ value / 2 ^ 24 % 256 ∷ value / 2 ^ 16 % 256 ∷ value / 2 ^ 8 % 256 ∷ value % 256 ∷ []

unfoldable pub encode_unsigned : ℕ → ℕ → ℕ → Bool × List ℕ
encode_unsigned room value tag =
    let kept = without_zeros (value_bytes value) in
    if ltb room 1
    then (false, [])
    else if ltb (room - 1) (1 + length kept)
    then (false, tag ∷ [])
    else (true, tag ∷ length kept ∷ kept)

decode_value-without_zeros :
    (value : ℕ) (rest : List ℕ)
    → value < 2 ^ 32
    → decode_value
        (length (without_zeros (value_bytes value)))
        (without_zeros (value_bytes value) ++ rest)
      ≡ some (value, rest)
unfolding decode_value value_from without_zeros value_bytes
decode_value-without_zeros value rest h = ground arith

-- A value keeps between one and five bytes.
length-without_zeros :
    (value : ℕ)
    → (1 ≤ length (without_zeros (value_bytes value)))
      × (length (without_zeros (value_bytes value)) ≤ 5)
unfolding without_zeros value_bytes
length-without_zeros value = ground arith

decode_unsigned_lem :
    (tag value : ℕ) (rest : List ℕ)
    → value < 2 ^ 32
    → is_unsigned tag ≡ true
    → decode_unsigned (
        tag
        ∷ length (without_zeros (value_bytes value))
        ∷ (without_zeros (value_bytes value) ++ rest))
      ≡ some (value, rest)
unfolding decode_unsigned
decode_unsigned_lem tag value rest h known =
    let kept = without_zeros (value_bytes value) in
    let (least, most) = length-without_zeros value in
    let size = length-append kept rest in
    let short = decode_short (length kept) (kept ++ rest) (omega (arith, most)) in
    let there : (length kept == 0
          || ltb 5 (length kept)
          || ltb (length (kept ++ rest)) (length kept))
        ≡ false =
      ground arith in
    rw (known, short, there) (decode_value-without_zeros value rest h)

-- A counter, gauge or time that the encoder puts in the room it has is the number that the decoder gives,
-- with what comes behind; it takes at most seven bytes, and no more than the room.
pub decode_unsigned-encode_unsigned :
    (room value tag : ℕ) (rest : List ℕ)
    → value < 2 ^ 32
    → is_unsigned tag ≡ true
    → (encode_unsigned room value tag).0 ≡ true
    → (decode_unsigned ((encode_unsigned room value tag).1 ++ rest) ≡ some (value, rest))
      × (length ((encode_unsigned room value tag).1) ≤ min 7 room)
unfolding encode_unsigned
decode_unsigned-encode_unsigned room value tag rest h known ok =
    let kept = without_zeros (value_bytes value) in
    let (least, most) = length-without_zeros value in
    elim (Bool-cases (ltb room 1)) [
      | inl a ↦ absurd (ground arith)
      | inr a ↦ elim (Bool-cases (ltb (room - 1) (1 + length kept))) [
        | inl b ↦ absurd (ground arith)
        | inr b ↦ simp (a, b) (decode_unsigned_lem tag value rest h known, ground arith)
      ]
    ]
