-- ===== src/HttpResponse/Message.antt =====
-- src/http_response_parser.c: the status line, the header lines, and the whole of
-- `HttpResponseParser_parse_with_options`. The headers are the pairs in the order in which they are put
-- into the map. `sscanf` on a status line is a parameter, as are the outcomes of allocations.
use libcore.Base.{ℕ, zero, suc, ◌+◌, ◌-◌, Bool, true, false, not, ◌&&◌, ◌||◌}
use libcore.Base.{
  Option, none, some, List, [], ◌∷◌, ◌++◌, ltb, leb, ◌==◌, if◌then◌else◌, length, take,
}
use libcore.Base.Int.{ℤ, pos, negsuc}
use libcore.HttpResponse.Number.{is_empty}
use libcore.HttpResponse.{
  recv_line, Head, Framing, no_body, chunked, to_end, sized, framing, read_body,
  content_length_header, http_max_header_count, http_max_header_bytes, http_max_informational,
}

-- What stands before and behind the first colon.
unfoldable pub split_colon : List ℕ → Option (List ℕ × List ℕ)
split_colon [] = none
split_colon (c ∷ cs) =
    let rest = split_colon cs in
    if c == b':'
    then some ([], cs)
    else elim rest [ none ↦ none | some (key, val) ↦ some (c ∷ key, val) ]

unfoldable pub skip_space : List ℕ → List ℕ
skip_space [] = []
skip_space (c ∷ cs) =
    let rest = skip_space cs in if c == b' ' || (leb 9 c && leb c 13) then rest else c ∷ cs

abbrev pub lower : ℕ → ℕ
lower c = if leb b'A' c && leb c b'Z' then c + 32 else c

-- `strcasecmp` gives 0.
unfoldable pub same_name : List ℕ → List ℕ → Bool
same_name [] [] = true
same_name (a ∷ more) (b ∷ bs) =
    let rest = same_name more bs in if lower a == lower b then rest else false
same_name _ _ = false

unfoldable pub starts_with : List ℕ → List ℕ → Bool
starts_with text [] = true
starts_with [] (b ∷ bs) = false
starts_with (a ∷ more) (b ∷ bs) =
    let rest = starts_with more bs in if lower a == lower b then rest else false

-- `strcasestr` finds the word.
unfoldable pub contains : List ℕ → List ℕ → Bool
contains [] word = starts_with [] word
contains (a ∷ more) word =
    let rest = contains more word in if starts_with (a ∷ more) word then true else rest

-- "Set-Cookie", "Content-Length", "Transfer-Encoding", "chunked", "HEAD"
abbrev pub set_cookie : List ℕ
set_cookie = b's' ∷ b'e' ∷ b't' ∷ b'-' ∷ b'c' ∷ b'o' ∷ b'o' ∷ b'k' ∷ b'i' ∷ b'e' ∷ []

abbrev pub content_length_name : List ℕ
content_length_name =
    b'c' ∷ b'o' ∷ b'n' ∷ b't' ∷ b'e' ∷ b'n' ∷ b't' ∷ b'-' ∷ b'l' ∷ b'e' ∷ b'n' ∷ b'g' ∷ b't' ∷ b'h'
    ∷ []

abbrev pub transfer_encoding : List ℕ
transfer_encoding =
    b't' ∷ b'r' ∷ b'a' ∷ b'n' ∷ b's' ∷ b'f' ∷ b'e' ∷ b'r' ∷ b'-' ∷ b'e' ∷ b'n' ∷ b'c' ∷ b'o' ∷ b'd'
    ∷ b'i' ∷ b'n' ∷ b'g' ∷ []

abbrev pub chunked_word : List ℕ
chunked_word = b'c' ∷ b'h' ∷ b'u' ∷ b'n' ∷ b'k' ∷ b'e' ∷ b'd' ∷ []

abbrev pub empty_head : Head
empty_head = record {
  headers = [];
  cookies = [];
  content_length = 0;
  has_content_length = false;
  exceeds_body_cap = false;
  conflict = false;
  is_chunked = false;
  has_transfer_encoding = false;
}

-- A header line; `cookie_made` says whether the cookie's string is made.
unfoldable pub put_header : Bool → List ℕ → List ℕ → Head → Head
put_header cookie_made key val h =
    let kept : Head = record h { headers = h.headers ++ (key, val) ∷ [] } in
    if same_name key set_cookie && cookie_made
    then record kept { cookies = h.cookies ++ val ∷ [] }
    else kept

unfoldable pub transfer_header : List ℕ → List ℕ → Head → Head
transfer_header key val h =
    if same_name key transfer_encoding
    then (record h {
      has_transfer_encoding = true;
      is_chunked = contains val chunked_word || h.is_chunked;
    })
    else h

unfoldable pub count_header : List ℕ → List ℕ → Head → Option Head
count_header key raw_val h =
    if same_name key content_length_name then content_length_header raw_val h else some h

unfoldable pub header_line : Bool → List ℕ → Head → Option Head
header_line cookie_made line h = elim (split_colon line) [
  | none ↦ some h
  | some (key, raw_val) ↦
      (let val = skip_space raw_val in
        let kept = put_header cookie_made key val h in
        elim (count_header key raw_val kept) [
          | none ↦ none
          | some counted ↦ some (transfer_header key val counted)
        ])
]

-- The lines of a head up to the empty one, `count` of them so far, of `used` bytes, given to `act`.
module _ {ℓ} {S : Type ℓ} (act : List ℕ → S → Option S) where
  unfoldable pub read_lines : ℕ → ℕ → ℕ → S → List ℕ → Option (S × List ℕ)
  read_lines zero count used s bytes = none
  read_lines (suc fuel) count used s bytes = elim (recv_line bytes) [
    | none ↦ none
    | some (line, ret, rest) ↦ elim (is_empty line) [
      | true ↦ some (s, rest)
      | false ↦ elim (leb http_max_header_count count || ltb (http_max_header_bytes - used) ret) [
        | true ↦ none
        | false ↦ elim (act line s) [
          | none ↦ none
          | some t ↦ read_lines fuel (suc count) (used + ret) t rest
        ]
      ]
    ]
  ]

pub record Response : Type 0 where
  pub status_code : ℕ
  pub head : Head
  pub body : List ℕ

-- The first status line: the one given, cut to the buffer, or the first of the connection.
unfoldable pub first_line : List ℕ → List ℕ → Option (List ℕ × List ℕ)
first_line initial bytes =
    if not (is_empty initial)
    then some (take 4095 initial, bytes)
    else elim (recv_line bytes) [ none ↦ none | some (line, ret, rest) ↦ some (line, rest) ]

-- What is allocated: the response, the buffer of the body, the body, and each cookie.
pub record Memory : Type 0 where
  pub for_response : Bool
  pub for_buffer : Bool
  pub for_body : Bool
  pub for_cookie : List ℕ → Bool
  pub writable : ℕ → Bool

abbrev pub is_no_body : Framing → Bool
is_no_body f = elim f [ no_body ↦ true | chunked ↦ false | to_end ↦ false | sized n ↦ false ]

unfoldable pub finish_body : Memory → ℕ → Head → Framing → List ℕ → Option Response
finish_body memory status h f bytes = elim (not (is_no_body f) && not memory.for_buffer) [
  | true ↦ none
  | false ↦ elim (read_body memory.writable f bytes) [
    | none ↦ none
    | some body ↦
        if memory.for_body
        then some (record { status_code = status; head = h; body = body })
        else none
  ]
]

unfoldable pub header_lines : Memory → List ℕ → Option (Head × List ℕ)
header_lines memory bytes =
    read_lines (λ l h. header_line (memory.for_cookie l) l h) (suc (length bytes)) 0 0 empty_head
      bytes

-- What follows the status line: `is_head` says that the method is HEAD.
unfoldable pub parse_head : Memory → ℕ → Bool → List ℕ → Option Response
parse_head memory status is_head rest = elim (header_lines memory rest) [
  | none ↦ none
  | some (h, bytes_left) ↦ elim (framing (not (is_head || status == 204 || status == 304)) h) [
    | none ↦ none
    | some f ↦ finish_body memory status h f bytes_left
  ]
]

-- Informational responses are skipped, ten of them at most, and the status of the final one is found.
module _ (scan_status : List ℕ → Option ℤ) where
  unfoldable pub read_status : ℕ → ℕ → List ℕ → List ℕ → Option (ℕ × List ℕ)
  read_status zero info line bytes = none
  read_status (suc fuel) info line bytes = elim (scan_status line) [
    | none ↦ none
    | some (negsuc n) ↦ none
    | some (pos status) ↦ elim (ltb status 100 || ltb 999 status || status == 101) [
      | true ↦ none
      | false ↦ elim (ltb status 200) [
        | false ↦ some (status, bytes)
        | true ↦ elim (ltb http_max_informational (info + 1)) [
          | true ↦ none
          | false ↦ elim (read_lines (λ l n. some n) (suc (length bytes)) 0 0 info bytes) [
            | none ↦ none
            | some (n, rest) ↦ elim (recv_line rest) [
              | none ↦ none
              | some (next, ret, behind) ↦ read_status fuel (n + 1) next behind
            ]
          ]
        ]
      ]
    ]
  ]

  unfoldable pub parse_with_options : Memory → List ℕ → Bool → List ℕ → Option Response
  parse_with_options memory initial is_head bytes = elim memory.for_response [
    | false ↦ none
    | true ↦ elim (first_line initial bytes) [
      | none ↦ none
      | some (line, behind) ↦ elim (read_status 11 0 line behind) [
        | none ↦ none
        | some (status, rest) ↦ parse_head memory status is_head rest
      ]
    ]
  ]
