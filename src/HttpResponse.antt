-- ===== src/HttpResponse.antt =====
-- src/http_response_parser.c, and the line reader of src/http_transport.c: a response read from a
-- connection. What `HttpTransport_getc` will give is the list of the bytes before it gives -1; `none` is a
-- response that is rejected.
pub mod Number
pub mod Message
pub mod Value
pub mod Chunks
pub mod Body
pub mod Bounds
pub mod Heads
pub mod Framed
mod Tests
use libcore.Base.{ℕ, zero, suc, ◌+◌, ◌-◌, ◌*◌, ◌^◌, Bool, true, false, not, ◌&&◌, ◌||◌}
use libcore.Base.{
  Option, none, some, List, [], ◌∷◌, ◌++◌, ltb, leb, ◌==◌, if◌then◌else◌, length, take,
}
use libcore.Base.Int.{ℤ, pos, negsuc}
use libcore.HttpResponse.Number.{size_max, is_empty, parse_content_length, parse_chunk_size}

abbrev pub http_max_body : ℕ
http_max_body = 1024 * 1024 * 16

abbrev pub http_max_header_count : ℕ
http_max_header_count = 100

abbrev pub http_max_header_bytes : ℕ
http_max_header_bytes = 64 * 1024

abbrev pub http_max_informational : ℕ
http_max_informational = 10

abbrev pub cr : ℕ
cr = 13

abbrev pub lf : ℕ
lf = 10

-- A line, how many bytes it took with its end, and the bytes behind.
abbrev pub Line : Type 0
Line = List ℕ × ℕ × List ℕ

pub longer : ℕ → Line → Line
longer c (line, consumed, rest) = (c ∷ line, suc consumed, rest)

-- `HttpTransport_recv_line`, where `window` bytes may still be taken.
pub line_from : ℕ → List ℕ → Option Line
line_from window [] = none
line_from zero (c ∷ cs) = none
line_from (suc window) (c ∷ cs) =
    let rest = line_from window cs in
    if c == 0
    then none
    else if c == lf
    then some ([], 1, cs)
    else if c == cr
    then (if window == 0
        then none
        else elim cs [ [] ↦ none | d ∷ ds ↦ if d == lf then some ([], 2, ds) else none ])
    else elim rest [ none ↦ none | some l ↦ some (longer c l) ]

pub recv_line : List ℕ → Option Line
recv_line bytes = line_from 4095 bytes

abbrev pub take_crlf : List ℕ → Option (List ℕ)
take_crlf [] = none
take_crlf (r1 ∷ []) = none
take_crlf (r1 ∷ r2 ∷ rest) = if r1 == cr && r2 == lf then some rest else none

-- The lines behind the last chunk, `count` of them so far, of `used` bytes.
pub read_trailers : ℕ → ℕ → ℕ → List ℕ → Option (List ℕ)
read_trailers zero count used bytes = none
read_trailers (suc fuel) count used bytes = elim (recv_line bytes) [
  | none ↦ none
  | some (line, ret, rest) ↦
      let next = read_trailers fuel (suc count) (used + ret) rest in
      if not (ret == length line + 2)
      then none
      else if is_empty line
      then some rest
      else if leb http_max_header_count count || ltb (http_max_header_bytes - used) ret
      then none
      else next
]

-- The body is the list of the bytes in the buffer; `writable` says at which lengths `writeByte` succeeds.
module _ (writable : ℕ → Bool) where
  -- `n` bytes moved from the connection to the buffer.
  pub read_bytes : ℕ → List ℕ → List ℕ → Option (List ℕ × List ℕ)
  read_bytes zero body bytes = some (body, bytes)
  read_bytes (suc n) body [] = none
  read_bytes (suc n) body (c ∷ cs) = elim (writable (length body)) [
    | false ↦ none
    | true ↦ read_bytes n (body ++ c ∷ []) cs
  ]

  -- The body of a connection that is read to its end.
  pub read_to_end : ℕ → List ℕ → List ℕ → Option (List ℕ)
  read_to_end total body [] = some body
  read_to_end total body (c ∷ cs) = elim (leb http_max_body total || not (writable (length body))) [
    | true ↦ none
    | false ↦ read_to_end (suc total) (body ++ c ∷ []) cs
  ]

  -- The loop over the chunks, of which `total` bytes have been read; every round takes a byte at least.
  pub read_chunks : ℕ → ℕ → List ℕ → List ℕ → Option (List ℕ × List ℕ)
  read_chunks zero total body bytes = none
  read_chunks (suc fuel) total body bytes = elim (recv_line bytes) [
    | none ↦ none
    | some (line, ret, rest) ↦ elim (ret == length line + 2) [
      | false ↦ none
      | true ↦ elim (parse_chunk_size line) [
        | none ↦ none
        | some size ↦ elim (size == 0) [
          | true ↦ elim (read_trailers (suc (length rest)) 0 0 rest) [
            | none ↦ none
            | some behind ↦ some (body, behind)
          ]
          | false ↦ elim (ltb (http_max_body - total) size) [
            | true ↦ none
            | false ↦ elim (read_bytes size body rest) [
              | none ↦ none
              | some (more, after) ↦ elim (take_crlf after) [
                | none ↦ none
                | some next ↦ read_chunks fuel (total + size) more next
              ]
            ]
          ]
        ]
      ]
    ]
  ]

-- What the loop over the header lines keeps.
pub record Head : Type 0 where
  pub headers : List (List ℕ × List ℕ)
  pub cookies : List (List ℕ)
  pub content_length : ℕ
  pub has_content_length : Bool
  pub exceeds_body_cap : Bool
  pub conflict : Bool
  pub is_chunked : Bool
  pub has_transfer_encoding : Bool

-- How a body is read: not at all, by its chunks, by its length, or to the end of the connection.
pub data Framing : Type 0 where
  no_body chunked to_end : Framing
  sized : ℕ → Framing

-- The checks between the header lines and the body; `has_body` is false for HEAD, 204 and 304.
pub framing : Bool → Head → Option Framing
framing has_body h =
    if not has_body
    then some no_body
    else if h.has_content_length && h.has_transfer_encoding
    then none
    else if h.conflict
    then none
    else if h.has_content_length && h.exceeds_body_cap
    then none
    else if h.is_chunked
    then some chunked
    else if h.has_content_length
    then some (sized h.content_length)
    else some to_end

pub read_body : (ℕ → Bool) → Framing → List ℕ → Option (List ℕ)
read_body writable no_body bytes = some []
read_body writable (sized n) bytes = elim (read_bytes writable n [] bytes) [
  | none ↦ none
  | some (body, rest) ↦ some body
]
read_body writable chunked bytes = elim (read_chunks writable (suc (length bytes)) 0 [] bytes) [
  | none ↦ none
  | some (body, rest) ↦ some body
]
read_body writable to_end bytes = read_to_end writable 0 [] bytes

-- A header of `Content-Length`.
pub content_length_header : List ℕ → Head → Option Head
content_length_header raw_val h = elim (parse_content_length raw_val size_max) [
  | none ↦ none
  | some n ↦
      (let exceeds = ltb http_max_body n || h.exceeds_body_cap in
        if not h.has_content_length
        then some
            (record h { content_length = n; has_content_length = true; exceeds_body_cap = exceeds })
        else some (record h {
          conflict = not (n == h.content_length) || h.conflict;
          exceeds_body_cap = exceeds;
        }))
]
