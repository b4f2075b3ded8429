-- ===== src/WsProtocol/Length.antt =====
-- The length bytes of a header, written and read back.
use libcore.Base.{ℕ, ◌+◌, ◌*◌, ◌/◌, ◌%◌, ◌^◌, ◌<◌, ◌≡◌, refl, arith, List, [], ◌∷◌, ◌++◌}
use libcore.Base.{length, leb, if◌then◌else◌, Bool-cases, inl, inr}
use libcore.WsProtocol.{
  length_bytes, header_len, read_header, header, big_endian_2, big_endian_8, byte_at,
}

-- What a client makes of the first length byte: the mask bit is set.
unfoldable pub mask_first : List ℕ → List ℕ
mask_first [] = []
mask_first (b ∷ bs) = (b + 128) ∷ bs

digits_8 :
    (n : ℕ)
    → n < 2 ^ 64
    → n / 2 ^ 56 % 256 * 2 ^ 56
        + n / 2 ^ 48 % 256 * 2 ^ 48
        + n / 2 ^ 40 % 256 * 2 ^ 40
        + n / 2 ^ 32 % 256 * 2 ^ 32
        + n / 2 ^ 24 % 256 * 2 ^ 24
        + n / 2 ^ 16 % 256 * 2 ^ 16
        + n / 2 ^ 8 % 256 * 2 ^ 8
        + n % 256
      ≡ n
digits_8 n h = omega arith

pub length-length_bytes : (n : ℕ) → length (length_bytes n) + 1 ≡ header_len n
unfolding length_bytes header_len
length-length_bytes n = ground arith

pub length-mask_first : (bs : List ℕ) → length (mask_first bs) ≡ length bs
unfolding mask_first
length-mask_first [] = refl
length-mask_first (b ∷ bs) = refl

-- A reader of a masked header finds the length that was written.
pub read_header-length_bytes :
    (first n : ℕ) (tail : List ℕ)
    → n < 2 ^ 64
    → read_header 0 (first ∷ (mask_first (length_bytes n) ++ tail)) ≡ header n (header_len n)
unfolding read_header length_bytes header_len mask_first big_endian_2 big_endian_8
read_header-length_bytes first n tail h = elim (Bool-cases (leb n 125)) [
  | inl small ↦ rw small (ground arith)
  | inr large ↦ elim (Bool-cases (leb n 65535)) [
    | inl two ↦ rw (large, two) (ground arith)
    | inr eight ↦ rw (large, eight) (ground (arith, digits_8 n h))
  ]
]

-- The 7-bit length of a header.
abbrev pub seven_bits : ℕ → ℕ
seven_bits n = if leb n 125 then n else if leb n 65535 then 126 else 127

pub second_byte :
    (first n : ℕ) (tail : List ℕ)
    → byte_at (first ∷ (mask_first (length_bytes n) ++ tail)) 1 ≡ seven_bits n + 128
unfolding length_bytes mask_first
second_byte first n tail = ground arith
