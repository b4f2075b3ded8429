-- ===== src/TextEncoder.antt =====
-- src/text_encoder.c: HTML escapes, URL encoding and base64. An input string is the list of its bytes
-- before the NUL, each below 256. `escape_html`, `url_encode`, `url_decode`, `base64_encode` and
-- `base64_decode` give what is appended to the output, in order; `url_encode_string` and the others like
-- it give what a new `StringBuilder` or `ByteBuffer` holds then, which drops what is beyond its limit. No
-- pointer is NULL, and `realloc` gives memory.
pub mod Html
pub mod Appends
pub mod Url
pub mod Base64
mod Tests
use libcore.Base.{ℕ, zero, suc, ◌+◌, ◌-◌, ◌*◌, ◌/◌, ◌%◌, ◌^◌, Bool, true, false, not, ◌&&◌, ◌||◌}
use libcore.ByteBuffer.{grown_capacity}
use libcore.Base.{Option, none, some, List, [], ◌∷◌, ◌++◌, length, leb, ltb, ◌==◌, if◌then◌else◌}

-- The `switch`: "&amp;", "&lt;", "&gt;", "&quot;", "&#x27;".
pub escape_char : ℕ → List ℕ
escape_char c =
    if c == b'&'
    then b'&' ∷ b'a' ∷ b'm' ∷ b'p' ∷ b';' ∷ []
    else if c == b'<'
    then b'&' ∷ b'l' ∷ b't' ∷ b';' ∷ []
    else if c == b'>'
    then b'&' ∷ b'g' ∷ b't' ∷ b';' ∷ []
    else if c == 34
    then b'&' ∷ b'q' ∷ b'u' ∷ b'o' ∷ b't' ∷ b';' ∷ []
    else if c == 39
    then b'&' ∷ b'#' ∷ b'x' ∷ b'2' ∷ b'7' ∷ b';' ∷ []
    else c ∷ []

pub escape_html : List ℕ → List ℕ
escape_html [] = []
escape_html (c ∷ cs) = escape_char c ++ escape_html cs

-- `c >= first && c <= last`.
abbrev pub within : ℕ → ℕ → ℕ → Bool
within first last c = leb first c && leb c last

pub is_unreserved : ℕ → Bool
is_unreserved c =
    within b'A' b'Z' c
    || (within b'a' b'z' c
        || (within b'0' b'9' c || (c == b'-' || (c == b'_' || (c == b'.' || c == b'~')))))

-- `"0123456789ABCDEF"[n]`.
pub hex_digit : ℕ → ℕ
hex_digit n = if ltb n 10 then b'0' + n else b'A' + (n - 10)

pub url_encode : List ℕ → List ℕ
url_encode [] = []
url_encode (c ∷ cs) =
    if is_unreserved c
    then c ∷ url_encode cs
    else b'%' ∷ hex_digit (c / 16) ∷ hex_digit (c % 16) ∷ url_encode cs

-- What `strtol` makes of a hexadecimal digit.
pub hex_value : ℕ → Option ℕ
hex_value c =
    if within b'0' b'9' c
    then some (c - b'0')
    else if within b'A' b'F' c
    then some (c - b'A' + 10)
    else if within b'a' b'f' c
    then some (c - b'a' + 10)
    else none

pub digit_or_0 : ℕ → ℕ
digit_or_0 c = elim (hex_value c) [ none ↦ 0 | some d ↦ d ]

-- `(char)strtol(hexStr, NULL, 16)` as a byte: blanks and a sign may come first, and the digits end
-- at the first character that is none.
pub hex_pair : ℕ → ℕ → ℕ
hex_pair a b = elim (hex_value a) [
  | some high ↦ elim (hex_value b) [ none ↦ high | some low ↦ high * 16 + low ]
  | none ↦
      if a == 32 || (within 9 13 a || a == b'+')
      then digit_or_0 b
      else if a == b'-'
      then (256 - digit_or_0 b) % 256
      else 0
]

-- A '%' without two characters behind it is dropped.
pub url_decode : List ℕ → List ℕ
url_decode [] = []
url_decode (c ∷ []) = if c == b'%' then [] else (if c == b'+' then 32 else c) ∷ []
url_decode (c ∷ a ∷ []) =
    let rest = url_decode (a ∷ []) in
    if c == b'%' then rest else (if c == b'+' then 32 else c) ∷ rest
url_decode (c ∷ a ∷ b ∷ cs) =
    let behind = url_decode cs in
    let rest = url_decode (a ∷ b ∷ cs) in
    if c == b'%' then hex_pair a b ∷ behind else (if c == b'+' then 32 else c) ∷ rest

-- The character of a 6-bit value in the table.
pub base64_char : ℕ → ℕ
base64_char n =
    if ltb n 26
    then b'A' + n
    else if ltb n 52
    then b'a' + (n - 26)
    else if ltb n 62
    then b'0' + (n - 52)
    else if n == 62
    then b'+'
    else b'/'

pub base64_encode : List ℕ → List ℕ
base64_encode [] = []
base64_encode (a ∷ []) =
    let val = a * 2 ^ 16 in
    base64_char (val / 2 ^ 18 % 64) ∷ base64_char (val / 2 ^ 12 % 64) ∷ b'=' ∷ b'=' ∷ []
base64_encode (a ∷ b ∷ []) =
    let val = a * 2 ^ 16 + b * 2 ^ 8 in
    base64_char (val / 2 ^ 18 % 64)
    ∷ base64_char (val / 2 ^ 12 % 64)
    ∷ base64_char (val / 2 ^ 6 % 64)
    ∷ b'='
    ∷ []
base64_encode (a ∷ b ∷ c ∷ rest) =
    let val = a * 2 ^ 16 + b * 2 ^ 8 + c in
    base64_char (val / 2 ^ 18 % 64)
    ∷ base64_char (val / 2 ^ 12 % 64)
    ∷ base64_char (val / 2 ^ 6 % 64)
    ∷ base64_char (val % 64)
    ∷ base64_encode rest

-- `none` is -1.
pub b64_val : ℕ → Option ℕ
b64_val c =
    if within b'A' b'Z' c
    then some (c - b'A')
    else if within b'a' b'z' c
    then some (c - b'a' + 26)
    else if within b'0' b'9' c
    then some (c - b'0' + 52)
    else if c == b'+' || c == b'-'
    then some 62
    else if c == b'/' || c == b'_'
    then some 63
    else none

-- The loop. `val` is a 32-bit word, and `bits` is `valb + 8`, which is 0, 2, 4 or 6 where the loop
-- starts again.
pub base64_decode_from : ℕ → ℕ → List ℕ → List ℕ
base64_decode_from val bits [] = []
base64_decode_from val bits (c ∷ cs) = if c == b'=' then [] else elim (b64_val c) [
  | none ↦ base64_decode_from val bits cs
  | some dec ↦
      let val' = (val * 64 + dec) % 2 ^ 32 in
      if leb 8 (bits + 6)
      then val' / 2 ^ (bits + 6 - 8) % 256 ∷ base64_decode_from val' (bits + 6 - 8) cs
      else base64_decode_from val' (bits + 6) cs
]

pub base64_decode : List ℕ → List ℕ
base64_decode input = base64_decode_from 0 0 input

-- What a `StringBuilder` or a `ByteBuffer` that is only written holds, and its capacity.
pub record Output : Type 0 where
  pub bytes : List ℕ
  pub capacity : ℕ

-- One byte appended, or dropped where the capacity cannot be doubled far enough; a `StringBuilder` keeps
-- `spare` = 1 byte for the NUL behind it.
pub append_char : ℕ → Output → ℕ → Output
append_char spare out ch = elim (grown_capacity 26 out.capacity (length out.bytes + 1 + spare)) [
  | none ↦ out
  | some new_cap ↦ record { bytes = out.bytes ++ ch ∷ []; capacity = new_cap }
]

pub append_all : ℕ → Output → List ℕ → Output
append_all spare out [] = out
append_all spare out (c ∷ cs) = append_all spare (append_char spare out c) cs

abbrev pub new_output : ℕ → Output
new_output capacity = record { bytes = []; capacity = capacity }

pub url_encode_string : List ℕ → List ℕ
url_encode_string input = (append_all 1 (new_output 32) (url_encode input)).bytes

pub url_decode_string : List ℕ → List ℕ
url_decode_string input = (append_all 1 (new_output 32) (url_decode input)).bytes

pub base64_encode_string : List ℕ → List ℕ
base64_encode_string bytes = (append_all 1 (new_output 32) (base64_encode bytes)).bytes

pub base64_decode_buffer : List ℕ → List ℕ
base64_decode_buffer input = (append_all 0 (new_output 30) (base64_decode input)).bytes
