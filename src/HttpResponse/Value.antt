-- ===== src/HttpResponse/Value.antt =====
-- src/http_response_parser.c: the numbers it reads against their values.
use libcore.Base.{ℕ, ◌+◌, ◌-◌, ◌*◌, ◌<◌, ◌≤◌, true, false, not, ◌&&◌, ◌≡◌, refl, sym}
use libcore.Base.{
  Option, none, some, inl, inr, List, [], ◌∷◌, ltb, leb, if◌then◌else◌, arith, Bool-cases,
  Option-cases,
}
use libcore.HttpResponse.Number.{
  size_max, decimal, hexadecimal, too_large, read_decimal, starts_with_digit, is_empty,
}
use libcore.HttpResponse.Number.{
  ends_size, read_hexadecimal, bad_start, ends_chunk_line, ends_at_once, skip_blanks,
  parse_content_length, parse_chunk_size,
}

-- The value of the decimal digits that a text starts with, after `value`, and what is behind them.
pub decimal_value : ℕ → List ℕ → ℕ
decimal_value value [] = value
decimal_value value (c ∷ cs) =
    let rest = decimal_value (value * 10 + (c - b'0')) cs in
    if leb b'0' c && leb c b'9' then rest else value

pub behind_decimal : List ℕ → List ℕ
behind_decimal [] = []
behind_decimal (c ∷ cs) =
    let rest = behind_decimal cs in if leb b'0' c && leb c b'9' then rest else c ∷ cs

decimal_value-le : (value : ℕ) (s : List ℕ) → value ≤ decimal_value value s
unfolding decimal_value
decimal_value-le value [] = omega arith
decimal_value-le value (c ∷ cs) =
    let rest = decimal_value-le (value * 10 + (c - b'0')) cs in ground arith

-- The test before each digit stops exactly the values beyond the limit.
too_large_iff :
    (limit value digit : ℕ)
    → digit < 10
    → too_large 10 limit value digit ≡ ltb limit (value * 10 + digit)
too_large_iff limit value digit h = ground arith

too_large_hex_iff :
    (limit value digit : ℕ)
    → digit < 16
    → too_large 16 limit value digit ≡ ltb limit (value * 16 + digit)
too_large_hex_iff limit value digit h = ground arith

read_decimal-value :
    (limit value : ℕ) (s : List ℕ)
    → value ≤ limit
    → read_decimal limit value s ≡ (
        if leb (decimal_value value s) limit
        then some (decimal_value value s, behind_decimal s)
        else none)
unfolding read_decimal decimal_value behind_decimal decimal
read_decimal-value limit value [] h = ground arith
read_decimal-value limit value (c ∷ cs) h = elim (Bool-cases (leb b'0' c && leb c b'9')) [
  | inl e ↦
      let stop = too_large_iff limit value (c - b'0') (ground arith) in
      let more = decimal_value-le (value * 10 + (c - b'0')) cs in
      elim (Bool-cases (ltb limit (value * 10 + (c - b'0')))) [
        | inl f ↦ ground arith
        | inr f ↦
            let rest = read_decimal-value limit (value * 10 + (c - b'0')) cs (ground arith) in
            ground arith
      ]
  | inr e ↦ ground arith
]

-- `Content-Length` is read exactly if it is a run of digits between blanks whose value is within the
-- limit, and is that value then: the tests for overflow stop nothing else.
pub parse_content_length-value :
    (s : List ℕ) (limit : ℕ)
    → parse_content_length s limit ≡ (
        if starts_with_digit (skip_blanks s)
          && leb (decimal_value 0 (skip_blanks s)) limit
          && is_empty (skip_blanks (behind_decimal (skip_blanks s)))
        then some (decimal_value 0 (skip_blanks s))
        else none)
unfolding parse_content_length
parse_content_length-value s limit = from (skip_blanks s)
  where
    from :
        (text : List ℕ)
        → (if is_empty text then none else elim (read_decimal limit 0 text) [
          | none ↦ none
          | some (value, rest) ↦
              if not (starts_with_digit text)
              then none
              else if is_empty (skip_blanks rest)
              then some value
              else none
        ])
          ≡ (if starts_with_digit text
                && leb (decimal_value 0 text) limit
                && is_empty (skip_blanks (behind_decimal text))
              then some (decimal_value 0 text)
              else none)
    from [] = refl
    from (c ∷ cs) =
        let r = read_decimal-value limit 0 (c ∷ cs) (omega arith) in
        elim (Bool-cases (leb (decimal_value 0 (c ∷ cs)) limit)) [
          | inl e ↦ simp (r, e) (ground arith)
          | inr e ↦ simp (r, e) (ground arith)
        ]

-- The value of the digits of a chunk's size, of any length, and what is behind them.
pub hexadecimal_value : ℕ → List ℕ → Option (ℕ × List ℕ)
hexadecimal_value value [] = some (value, [])
hexadecimal_value value (c ∷ cs) = elim (ends_size c) [
  | true ↦ some (value, c ∷ cs)
  | false ↦ elim (hexadecimal c) [
    | none ↦ none
    | some digit ↦ hexadecimal_value (value * 16 + digit) cs
  ]
]

abbrev pub up_to : ℕ → Option (ℕ × List ℕ) → Option (ℕ × List ℕ)
up_to limit o = elim o [
  | none ↦ none
  | some (v, rest) ↦ if leb v limit then some (v, rest) else none
]

hexadecimal-lt : (c digit : ℕ) → hexadecimal c ≡ some digit → digit < 16
unfolding hexadecimal
hexadecimal-lt c digit h = ground arith

up_to-beyond :
    (limit value : ℕ) (s : List ℕ) → limit < value → up_to limit (hexadecimal_value value s) ≡ none
unfolding hexadecimal_value
up_to-beyond limit value [] h = ground arith
up_to-beyond limit value (c ∷ cs) h = elim (Bool-cases (ends_size c)) [
  | inl e ↦ simp (hexadecimal_value, e) (ground arith)
  | inr e ↦ elim (Option-cases (hexadecimal c)) [
    | inl f ↦ simp (hexadecimal_value, e, f) refl
    | inr (digit, f) ↦
        simp (hexadecimal_value, e, f) (up_to-beyond limit (value * 16 + digit) cs (omega arith))
  ]
]

read_hexadecimal-value :
    (value : ℕ) (s : List ℕ)
    → value ≤ size_max
    → read_hexadecimal value s ≡ up_to size_max (hexadecimal_value value s)
unfolding read_hexadecimal hexadecimal_value
read_hexadecimal-value value [] h = ground arith
read_hexadecimal-value value (c ∷ cs) h = elim (Bool-cases (ends_size c)) [
  | inl e ↦ simp (read_hexadecimal, hexadecimal_value, e) (ground arith)
  | inr e ↦ elim (Option-cases (hexadecimal c)) [
    | inl f ↦ simp (read_hexadecimal, hexadecimal_value, e, f) refl
    | inr (digit, f) ↦
        let stop = too_large_hex_iff size_max value digit (hexadecimal-lt c digit f) in
        elim (Bool-cases (ltb size_max (value * 16 + digit))) [
          | inl g ↦
              let gone = up_to-beyond size_max (value * 16 + digit) cs (ground arith) in
              simp (read_hexadecimal, hexadecimal_value, e, f, stop, g) (sym gone)
          | inr g ↦
              let rest = read_hexadecimal-value (value * 16 + digit) cs (ground arith) in
              simp (read_hexadecimal, hexadecimal_value, e, f, stop, g) rest
        ]
  ]
]

-- The size of a chunk is read exactly if the line starts with hexadecimal digits (and not with `0x`), has
-- only blanks or an extension behind them, and the value of the digits fits 64 bits; it is that value.
pub parse_chunk_size-value :
    (s : List ℕ)
    → parse_chunk_size s ≡ (
        if bad_start s then none else elim (up_to size_max (hexadecimal_value 0 s)) [
          | none ↦ none
          | some (value, rest) ↦
              if ends_at_once s
              then none
              else if ends_chunk_line (skip_blanks rest)
              then some value
              else none
        ])
unfolding parse_chunk_size
parse_chunk_size-value s = rw (read_hexadecimal-value 0 s (omega arith))
