-- ===== src/TextEncoder/Base64.antt =====
-- src/text_encoder.c: base64.
use libcore.Base.{ℕ, ◌+◌, ◌*◌, ◌/◌, ◌%◌, ◌^◌, ◌<◌, true, false, ◌≡◌, refl, ap, ap₂, ◌∙◌}
use libcore.Base.{some, List, [], ◌∷◌, ◌==◌, arith}
use libcore.ByteBuffer.{bb_max_capacity}
use libcore.TextEncoder.Appends.{string-fits, buffer-fits}
use libcore.TextEncoder.{base64_char, b64_val, base64_encode, base64_decode, base64_decode_from}
use libcore.TextEncoder.{append_all, new_output, base64_encode_string, base64_decode_buffer}
use libcore.TextEncoder.Url.{are_bytes}
use libcore.Base.{length, ◌≤◌}

b64_val-base64_char : (n : ℕ) → n < 64 → b64_val (base64_char n) ≡ some n
unfolding b64_val base64_char
b64_val-base64_char n l = ground arith

base64_char_no_pad : (n : ℕ) → (base64_char n == b'=') ≡ false
unfolding base64_char
base64_char_no_pad n = ground arith

-- The state after one more character.
abbrev next : ℕ → ℕ → ℕ
next val n = (val * 64 + n) % 2 ^ 32

decode_first :
    (val n : ℕ) (cs : List ℕ)
    → n < 64
    → base64_decode_from val 0 (base64_char n ∷ cs) ≡ base64_decode_from (next val n) 6 cs
unfolding base64_decode_from
decode_first val n cs l =
    rw (base64_decode_from, base64_char_no_pad n, b64_val-base64_char n l) refl

decode_second :
    (val n : ℕ) (cs : List ℕ)
    → n < 64
    → base64_decode_from val 6 (base64_char n ∷ cs)
      ≡ next val n / 16 % 256 ∷ base64_decode_from (next val n) 4 cs
unfolding base64_decode_from
decode_second val n cs l =
    rw (base64_decode_from, base64_char_no_pad n, b64_val-base64_char n l) refl

decode_third :
    (val n : ℕ) (cs : List ℕ)
    → n < 64
    → base64_decode_from val 4 (base64_char n ∷ cs)
      ≡ next val n / 4 % 256 ∷ base64_decode_from (next val n) 2 cs
unfolding base64_decode_from
decode_third val n cs l =
    rw (base64_decode_from, base64_char_no_pad n, b64_val-base64_char n l) refl

decode_fourth :
    (val n : ℕ) (cs : List ℕ)
    → n < 64
    → base64_decode_from val 2 (base64_char n ∷ cs)
      ≡ next val n / 1 % 256 ∷ base64_decode_from (next val n) 0 cs
unfolding base64_decode_from
decode_fourth val n cs l =
    rw (base64_decode_from, base64_char_no_pad n, b64_val-base64_char n l) refl

decode_pad : (val bits : ℕ) (cs : List ℕ) → base64_decode_from val bits (b'=' ∷ cs) ≡ []
unfolding base64_decode_from
decode_pad val bits cs = refl

decode_nothing : (val : ℕ) → base64_decode_from val 0 (base64_encode []) ≡ []
unfolding base64_decode_from base64_encode
decode_nothing val = refl

-- The bytes that come out of the 6-bit values of three bytes, from any state between groups.
first_byte :
    (v w a r : ℕ)
    → w ≡ a * 2 ^ 16 + r
    → r < 2 ^ 16
    → a < 256
    → next (next v (w / 2 ^ 18 % 64)) (w / 2 ^ 12 % 64) / 16 % 256 ≡ a
first_byte v w a r e l m = omega arith

second_byte :
    (v w a b c : ℕ)
    → w ≡ a * 2 ^ 16 + b * 2 ^ 8 + c
    → a < 256
    → b < 256
    → c < 256
    → next (next v (w / 2 ^ 12 % 64)) (w / 2 ^ 6 % 64) / 4 % 256 ≡ b
second_byte v w a b c e l m n = omega arith

third_byte :
    (v w a b c : ℕ)
    → w ≡ a * 2 ^ 16 + b * 2 ^ 8 + c
    → a < 256
    → b < 256
    → c < 256
    → next (next v (w / 2 ^ 6 % 64)) (w % 64) / 1 % 256 ≡ c
third_byte v w a b c e l m n = omega arith

decode_group :
    (v a b c : ℕ) (rest : List ℕ)
    → a < 256
    → b < 256
    → c < 256
    → (u : ℕ) × (base64_decode_from v 0 (base64_encode (a ∷ b ∷ c ∷ rest))
        ≡ a ∷ b ∷ c ∷ base64_decode_from u 0 (base64_encode rest))
unfolding base64_encode
decode_group v a b c rest l m n =
    let w = a * 2 ^ 16 + b * 2 ^ 8 + c in
    let n0 = w / 2 ^ 18 % 64 in
    let n1 = w / 2 ^ 12 % 64 in
    let n2 = w / 2 ^ 6 % 64 in
    let n3 = w % 64 in
    let v1 = next v n0 in
    let v2 = next v1 n1 in
    let v3 = next v2 n2 in
    let v4 = next v3 n3 in
    let more = base64_encode rest in
    (
      v4,
      decode_first v n0 (base64_char n1 ∷ base64_char n2 ∷ base64_char n3 ∷ more) (omega arith)
          ∙ decode_second v1 n1 (base64_char n2 ∷ base64_char n3 ∷ more) (omega arith)
          ∙ ap₂ (λ x xs. x ∷ xs) (first_byte v w a (b * 2 ^ 8 + c) (omega arith) (omega arith) l)
              (decode_third v2 n2 (base64_char n3 ∷ more) (omega arith)
                ∙ ap₂ (λ x xs. x ∷ xs) (second_byte v1 w a b c refl l m n)
                    (decode_fourth v3 n3 more (omega arith)
                      ∙ ap (λ x. x ∷ base64_decode_from v4 0 more)
                          (third_byte v2 w a b c refl l m n))),
    )

decode_two :
    (v a b : ℕ)
    → a < 256
    → b < 256
    → base64_decode_from v 0 (base64_encode (a ∷ b ∷ [])) ≡ a ∷ b ∷ []
unfolding base64_encode
decode_two v a b l m =
    let w = a * 2 ^ 16 + b * 2 ^ 8 in
    let n0 = w / 2 ^ 18 % 64 in
    let n1 = w / 2 ^ 12 % 64 in
    let n2 = w / 2 ^ 6 % 64 in
    let v1 = next v n0 in
    let v2 = next v1 n1 in
    decode_first v n0 (base64_char n1 ∷ base64_char n2 ∷ b'=' ∷ []) (omega arith)
    ∙ decode_second v1 n1 (base64_char n2 ∷ b'=' ∷ []) (omega arith)
    ∙ ap₂ (λ x xs. x ∷ xs) (first_byte v w a (b * 2 ^ 8) refl (omega arith) l)
        (decode_third v2 n2 (b'=' ∷ []) (omega arith)
          ∙ ap₂ (λ x xs. x ∷ xs) (second_byte v1 w a b 0 (omega arith) l m (omega arith))
              (decode_pad (next v2 n2) 2 []))

decode_one : (v a : ℕ) → a < 256 → base64_decode_from v 0 (base64_encode (a ∷ [])) ≡ a ∷ []
unfolding base64_encode
decode_one v a l =
    let w = a * 2 ^ 16 in
    let n0 = w / 2 ^ 18 % 64 in
    let n1 = w / 2 ^ 12 % 64 in
    let v1 = next v n0 in
    decode_first v n0 (base64_char n1 ∷ b'=' ∷ b'=' ∷ []) (omega arith)
    ∙ decode_second v1 n1 (b'=' ∷ b'=' ∷ []) (omega arith)
    ∙ ap₂ (λ x xs. x ∷ xs) (first_byte v w a 0 (omega arith) (omega arith) l)
        (decode_pad (next v1 n1) 4 (b'=' ∷ []))

decode_all :
    (v : ℕ) (bytes : List ℕ)
    → are_bytes bytes ≡ true
    → base64_decode_from v 0 (base64_encode bytes) ≡ bytes
unfolding are_bytes
decode_all v [] h = decode_nothing v
decode_all v (a ∷ []) h = decode_one v a (ground arith)
decode_all v (a ∷ b ∷ []) h = decode_two v a b (ground arith) (ground arith)
decode_all v (a ∷ b ∷ c ∷ rest) h =
    let (u, group) = decode_group v a b c rest (ground arith) (ground arith) (ground arith) in
    group ∙ ap (λ r. a ∷ b ∷ c ∷ r) (decode_all u rest (ground arith))

length-base64_encode : (bytes : List ℕ) → 4 * length bytes ≤ 3 * length (base64_encode bytes)
unfolding base64_encode
length-base64_encode [] = omega arith
length-base64_encode (a ∷ []) = omega arith
length-base64_encode (a ∷ b ∷ []) = omega arith
length-base64_encode (a ∷ b ∷ c ∷ rest) = omega (arith, length-base64_encode rest)

-- Decoding what base64 makes of any bytes gives the bytes back, with one, two or no pads, where the encoded
-- text fits a string of fewer than 16 MiB.
pub base64_decode-base64_encode :
    (bytes : List ℕ)
    → are_bytes bytes ≡ true
    → length (base64_encode bytes) < bb_max_capacity
    → base64_decode_buffer (base64_encode_string bytes) ≡ bytes
unfolding base64_decode base64_decode_buffer base64_encode_string
base64_decode-base64_encode bytes h n =
    let first = string-fits (base64_encode bytes) n in
    let same = decode_all 0 bytes h in
    let m = length-base64_encode bytes in
    ap base64_decode_buffer first
    ∙ ap (λ s. (append_all 0 (new_output 30) s).bytes) same
    ∙ buffer-fits bytes (omega arith)
