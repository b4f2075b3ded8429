-- ===== src/HttpResponse/Number.antt =====
-- src/http_response_parser.c: the numbers of `Content-Length` and of a chunk.
use libcore.Base.{ℕ, ◌+◌, ◌-◌, ◌*◌, ◌/◌, ◌%◌, ◌^◌, Bool, true, false, not, ◌&&◌, ◌||◌}
use libcore.Base.{Option, none, some, List, [], ◌∷◌, ltb, leb, ◌==◌, if◌then◌else◌}

abbrev pub size_max : ℕ
size_max = 2 ^ 64 - 1

abbrev pub is_blank : ℕ → Bool
is_blank c = c == b' ' || c == 9

unfoldable pub skip_blanks : List ℕ → List ℕ
skip_blanks [] = []
skip_blanks (c ∷ cs) = let rest = skip_blanks cs in if is_blank c then rest else c ∷ cs

-- A digit of base 10, and of base 16.
unfoldable pub decimal : ℕ → Option ℕ
decimal c = if leb b'0' c && leb c b'9' then some (c - b'0') else none

unfoldable pub hexadecimal : ℕ → Option ℕ
hexadecimal c =
    if leb b'0' c && leb c b'9'
    then some (c - b'0')
    else if leb b'a' c && leb c b'f'
    then some (c - b'a' + 10)
    else if leb b'A' c && leb c b'F'
    then some (c - b'A' + 10)
    else none

-- The test for a value that the next digit takes past the limit.
abbrev pub too_large : ℕ → ℕ → ℕ → ℕ → Bool
too_large base limit value digit =
    ltb (limit / base) value || (value == limit / base && ltb (limit % base) digit)

-- The loop over the decimal digits: the value and what is behind them.
unfoldable pub read_decimal : ℕ → ℕ → List ℕ → Option (ℕ × List ℕ)
read_decimal limit value [] = some (value, [])
read_decimal limit value (c ∷ cs) =
    let rest = read_decimal limit (value * 10 + (c - b'0')) cs in
    elim (decimal c) [
      | none ↦ some (value, c ∷ cs)
      | some digit ↦ if too_large 10 limit value digit then none else rest
    ]

abbrev pub starts_with_digit : List ℕ → Bool
starts_with_digit [] = false
starts_with_digit (c ∷ cs) = leb b'0' c && leb c b'9'

abbrev pub is_empty : List ℕ → Bool
is_empty [] = true
is_empty (c ∷ cs) = false

unfoldable pub parse_content_length : List ℕ → ℕ → Option ℕ
parse_content_length s max_limit =
    let text = skip_blanks s in
    if is_empty text then none else elim (read_decimal max_limit 0 text) [
      | none ↦ none
      | some (value, rest) ↦
          if not (starts_with_digit text)
          then none
          else if is_empty (skip_blanks rest)
          then some value
          else none
    ]

-- Where the digits of a chunk's size end.
abbrev pub ends_size : ℕ → Bool
ends_size c = c == b';' || c == b' ' || c == 9 || c == 13 || c == 10

unfoldable pub read_hexadecimal : ℕ → List ℕ → Option (ℕ × List ℕ)
read_hexadecimal value [] = some (value, [])
read_hexadecimal value (c ∷ cs) = elim (ends_size c) [
  | true ↦ some (value, c ∷ cs)
  | false ↦ elim (hexadecimal c) [
    | none ↦ none
    | some digit ↦
        if too_large 16 size_max value digit then none else read_hexadecimal (value * 16 + digit) cs
  ]
]

-- What may not start a size.
abbrev pub bad_start : List ℕ → Bool
bad_start [] = true
bad_start (c ∷ []) = is_blank c || c == b'+' || c == b'-'
bad_start (c ∷ d ∷ cs) =
    is_blank c || c == b'+' || c == b'-' || (c == b'0' && (d == b'x' || d == b'X'))

abbrev pub ends_chunk_line : List ℕ → Bool
ends_chunk_line [] = true
ends_chunk_line (c ∷ cs) = c == b';'

abbrev pub ends_at_once : List ℕ → Bool
ends_at_once [] = true
ends_at_once (c ∷ cs) = ends_size c

unfoldable pub parse_chunk_size : List ℕ → Option ℕ
parse_chunk_size s = if bad_start s then none else elim (read_hexadecimal 0 s) [
  | none ↦ none
  | some (value, rest) ↦
      if ends_at_once s
      then none
      else if ends_chunk_line (skip_blanks rest)
      then some value
      else none
]
