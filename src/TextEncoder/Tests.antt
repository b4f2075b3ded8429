-- ===== src/TextEncoder/Tests.antt =====
-- The theorems on the encoder at concrete texts.
use libcore.Base.{true, arith, ◌≡◌, refl, List, [], ◌∷◌, ℕ}
use libcore.TextEncoder.{
  url_encode_string, url_decode_string, base64_encode_string, base64_decode_buffer, url_encode,
  is_unreserved, hex_digit, base64_encode, base64_decode, base64_decode_from, base64_char, b64_val,
}
use libcore.TextEncoder.Base64.{base64_decode-base64_encode}
use libcore.TextEncoder.Url.{are_bytes, url_decode-url_encode}

-- "A b&"
abbrev text : List ℕ
text = b'A' ∷ 32 ∷ b'b' ∷ b'&' ∷ []

encode_text : url_encode text ≡ b'A' ∷ b'%' ∷ b'2' ∷ b'0' ∷ b'b' ∷ b'%' ∷ b'2' ∷ b'6' ∷ []
unfolding url_encode is_unreserved hex_digit
encode_text = refl

base64_text : base64_encode text ≡ b'Q' ∷ b'S' ∷ b'B' ∷ b'i' ∷ b'J' ∷ b'g' ∷ b'=' ∷ b'=' ∷ []
unfolding base64_encode base64_char
base64_text = refl

base64_back : base64_decode (b'Q' ∷ b'S' ∷ b'B' ∷ b'i' ∷ b'J' ∷ b'g' ∷ b'=' ∷ b'=' ∷ []) ≡ text
unfolding base64_decode base64_decode_from b64_val
base64_back = refl

text_bytes : are_bytes text ≡ true
unfolding are_bytes
text_bytes = refl

url_decode-url_encode_example : url_decode_string (url_encode_string text) ≡ text
unfolding url_encode
url_decode-url_encode_example = url_decode-url_encode text text_bytes (ground arith)

base64_decode-base64_encode_example : base64_decode_buffer (base64_encode_string text) ≡ text
unfolding base64_encode
base64_decode-base64_encode_example = base64_decode-base64_encode text text_bytes (ground arith)
