-- ===== src/TextEncoder/Url.antt =====
-- src/text_encoder.c: URL encoding and decoding.
use libcore.Base.{ℕ, ◌/◌, ◌%◌, ◌<◌, Bool, true, false, ◌≡◌, ◌≢◌, refl, ap, ap₂, ◌∙◌}
use libcore.Base.{some, List, [], ◌∷◌, ltb, if◌then◌else◌, arith, inl, inr, Bool-cases}
use libcore.Base.{◌≤◌, length}
use libcore.ByteBuffer.{bb_max_capacity}
use libcore.TextEncoder.Appends.{string-fits}
use libcore.TextEncoder.{append_all, new_output, url_encode_string, url_decode_string}
use libcore.TextEncoder.{is_unreserved, hex_digit, url_encode, hex_value, hex_pair, url_decode}

unfoldable pub are_bytes : List ℕ → Bool
are_bytes [] = true
are_bytes (c ∷ cs) = let rest = are_bytes cs in if ltb c 256 then rest else false

hex_value-hex_digit : (n : ℕ) → n < 16 → hex_value (hex_digit n) ≡ some n
unfolding hex_value hex_digit
hex_value-hex_digit n l = ground arith

hex_pair-hex_digit : (c : ℕ) → c < 256 → hex_pair (hex_digit (c / 16)) (hex_digit (c % 16)) ≡ c
unfolding hex_pair
hex_pair-hex_digit c l =
    rw
      (
        hex_pair,
        hex_value-hex_digit (c / 16) (omega arith),
        hex_value-hex_digit (c % 16) (omega arith),
      )
      (omega arith)

plain : (c : ℕ) → is_unreserved c ≡ true → (c ≢ b'%') × (c ≢ b'+')
unfolding is_unreserved
plain c h = (λ e. ground arith, λ e. ground arith)

url_decode-plain :
    (c : ℕ) (cs : List ℕ) → c ≢ b'%' → c ≢ b'+' → url_decode (c ∷ cs) ≡ c ∷ url_decode cs
unfolding url_decode
url_decode-plain c [] p q = ground arith
url_decode-plain c (a ∷ []) p q = ground arith
url_decode-plain c (a ∷ b ∷ cs) p q = ground arith

url_decode_nil : url_decode [] ≡ []
unfolding url_decode
url_decode_nil = refl

url_decode-escape :
    (a b : ℕ) (cs : List ℕ) → url_decode (b'%' ∷ a ∷ b ∷ cs) ≡ hex_pair a b ∷ url_decode cs
unfolding url_decode
url_decode-escape a b cs = refl

decode_chars : (input : List ℕ) → are_bytes input ≡ true → url_decode (url_encode input) ≡ input
unfolding url_encode are_bytes
decode_chars [] h = url_decode_nil
decode_chars (c ∷ cs) h =
    let ih = decode_chars cs (ground arith) in
    let byte : c < 256 = ground arith in
    elim (Bool-cases (is_unreserved c)) [
      | inl e ↦
          let ok = plain c e in
          rw (e) (url_decode-plain c (url_encode cs) (ok.0) (ok.1) ∙ ap (λ r. c ∷ r) ih)
      | inr e ↦ rw (e) (
          url_decode-escape (hex_digit (c / 16)) (hex_digit (c % 16)) (url_encode cs)
          ∙ ap₂ (λ x r. x ∷ r) (hex_pair-hex_digit c byte) ih)
    ]

length-url_encode : (input : List ℕ) → length input ≤ length (url_encode input)
unfolding url_encode
length-url_encode [] = omega arith
length-url_encode (c ∷ cs) = let ih = length-url_encode cs in ground arith

-- Decoding what is encoded gives the input back, for any bytes whose encoding fits a string of fewer than
-- 16 MiB.
pub url_decode-url_encode :
    (input : List ℕ)
    → are_bytes input ≡ true
    → length (url_encode input) < bb_max_capacity
    → url_decode_string (url_encode_string input) ≡ input
unfolding url_decode_string url_encode_string
url_decode-url_encode input h n =
    let first = string-fits (url_encode input) n in
    let same = decode_chars input h in
    let m = length-url_encode input in
    ap url_decode_string first
    ∙ ap (λ s. (append_all 1 (new_output 32) s).bytes) same
    ∙ string-fits input (omega arith)
