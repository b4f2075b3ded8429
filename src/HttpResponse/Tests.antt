-- ===== src/HttpResponse/Tests.antt =====
-- Tests of src/http_response_parser.c, and its theorems at concrete inputs.
use libcore.Base.{
  ℕ, suc, Bool, true, false, ◌&&◌, leb, if◌then◌else◌, Option, List, some, none, ◌∷◌, [], length,
  ◌≡◌, refl, arith, ltb, ◌<◌,
}
use libcore.Base.Int.{ℤ, pos}
use libcore.HttpResponse.{
  read_chunks, recv_line, line_from, longer, read_bytes, read_body, framing, content_length_header,
  http_max_body,
}
use libcore.HttpResponse.Number.{
  parse_content_length, skip_blanks, read_decimal, decimal, parse_chunk_size, read_hexadecimal,
  hexadecimal, starts_with_digit, is_empty, size_max,
}
use libcore.HttpResponse.Value.{decimal_value, behind_decimal, parse_content_length-value}
use libcore.HttpResponse.Chunks.{
  is_line_text, GivesSize, AreChunks, wire, joined, read_chunks-chunks,
}
use libcore.HttpResponse.Message.{
  Memory, Response, parse_with_options, first_line, read_status, parse_head, header_lines,
  read_lines, header_line, split_colon, finish_body, put_header, transfer_header, count_header,
  same_name, skip_space, contains, starts_with,
}
use libcore.HttpResponse.Framed.{IsAccepted, parse_with_options-IsAccepted}

-- " 42"
abbrev forty_two : List ℕ
forty_two = b' ' ∷ b'4' ∷ b'2' ∷ []

forty_two-parse_content_length : parse_content_length forty_two size_max ≡ some 42
unfolding parse_content_length skip_blanks read_decimal decimal
forty_two-parse_content_length = refl

-- "1a;x"
extension-parse_chunk_size : parse_chunk_size (b'1' ∷ b'a' ∷ b';' ∷ b'x' ∷ []) ≡ some 26
unfolding parse_chunk_size read_hexadecimal hexadecimal skip_blanks
extension-parse_chunk_size = refl

-- A buffer with the limit of the program's own.
abbrev below_limit : ℕ → Bool
below_limit n = ltb n http_max_body

below_limit_lem : (n : ℕ) → n < http_max_body → below_limit n ≡ true
below_limit_lem n h = ground arith

abbrev two_chunks : List (List ℕ × List ℕ)
two_chunks = (b'2' ∷ [], 7 ∷ 8 ∷ []) ∷ (b'1' ∷ [], 9 ∷ []) ∷ []

two_chunks-AreChunks : AreChunks two_chunks
unfolding AreChunks GivesSize parse_chunk_size read_hexadecimal hexadecimal skip_blanks is_line_text
two_chunks-AreChunks =
    ((refl, refl, omega arith), omega arith, ((refl, refl, omega arith), omega arith, tt))

zero-GivesSize : GivesSize (b'0' ∷ []) 0
unfolding GivesSize parse_chunk_size read_hexadecimal hexadecimal skip_blanks is_line_text
zero-GivesSize = (refl, refl, omega arith)

-- "HTTP/1.1 200", a length of 2, and the body "hi"
abbrev answer : List ℕ
answer =
    b'H' ∷ b'!' ∷ 13 ∷ 10 ∷ b'C' ∷ b'o' ∷ b'n' ∷ b't' ∷ b'e' ∷ b'n' ∷ b't' ∷ b'-' ∷ b'L' ∷ b'e'
    ∷ b'n' ∷ b'g' ∷ b't' ∷ b'h' ∷ b':' ∷ b'2' ∷ 13 ∷ 10 ∷ 13 ∷ 10 ∷ b'h' ∷ b'i' ∷ []

abbrev plenty : Memory
plenty = record {
  for_response = true;
  for_buffer = true;
  for_body = true;
  for_cookie = λ l. true;
  writable = λ n. true;
}

abbrev two_hundred : List ℕ → Option ℤ
two_hundred line = some (pos 200)

abbrev length_val : List ℕ
length_val = b'2' ∷ []

abbrev response : Response
response = record {
  status_code = 200;
  head = record {
    headers =
        (
          b'C' ∷ b'o' ∷ b'n' ∷ b't' ∷ b'e' ∷ b'n' ∷ b't' ∷ b'-' ∷ b'L' ∷ b'e' ∷ b'n' ∷ b'g' ∷ b't'
              ∷ b'h' ∷ [],
          length_val,
        )
        ∷ [];
    cookies = [];
    content_length = 2;
    has_content_length = true;
    exceeds_body_cap = false;
    conflict = false;
    is_chunked = false;
    has_transfer_encoding = false;
  };
  body = b'h' ∷ b'i' ∷ [];
}

answer-parse_with_options : parse_with_options two_hundred plenty [] false answer ≡ some response
unfolding parse_with_options first_line read_status parse_head header_lines read_lines header_line
    split_colon finish_body put_header transfer_header count_header same_name skip_space contains
    starts_with recv_line line_from longer read_bytes read_body framing content_length_header
    parse_content_length skip_blanks read_decimal decimal
answer-parse_with_options = refl

parse_with_options-IsAccepted_example : IsAccepted two_hundred [] false answer response
parse_with_options-IsAccepted_example =
    parse_with_options-IsAccepted two_hundred plenty [] false answer response
      answer-parse_with_options

read_chunks-chunks_example :
    read_chunks below_limit
      (suc (length (wire two_chunks (b'0' ∷ []) (5 ∷ []))))
      0
      []
      (wire two_chunks (b'0' ∷ []) (5 ∷ []))
    ≡ some (joined two_chunks, 5 ∷ [])
unfolding joined
read_chunks-chunks_example =
    read_chunks-chunks below_limit (λ n. below_limit_lem n) two_chunks (b'0' ∷ []) (5 ∷ [])
      two_chunks-AreChunks zero-GivesSize (omega arith)

parse_content_length-value_example : parse_content_length forty_two 100 ≡ (
    if starts_with_digit (skip_blanks forty_two)
      && leb (decimal_value 0 (skip_blanks forty_two)) 100
      && is_empty (skip_blanks (behind_decimal (skip_blanks forty_two)))
    then some (decimal_value 0 (skip_blanks forty_two))
    else none)
parse_content_length-value_example = parse_content_length-value forty_two 100
