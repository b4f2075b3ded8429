-- ===== src/HttpResponse/Bounds.antt =====
-- src/http_response_parser.c: the limit on a body.
use libcore.Base.{ℕ, zero, suc, ◌+◌, ◌-◌, ◌≤◌, Bool, true, not, ◌&&◌, ◌||◌, ◌≡◌, refl, sym, ap, ◌∙◌}
use libcore.Base.{some, inl, inr, List, ltb, leb, length, arith, Bool-cases, Option-cases}
use libcore.HttpResponse.Number.{is_empty, parse_content_length, size_max}
use libcore.HttpResponse.{recv_line, http_max_body}
use libcore.HttpResponse.{
  Head, Framing, no_body, chunked, to_end, sized, framing, read_body, content_length_header,
  http_max_header_count, http_max_header_bytes,
}
use libcore.HttpResponse.Message.{
  split_colon, skip_space, same_name, put_header, transfer_header, header_line, content_length_name,
}
use libcore.HttpResponse.Message.{
  read_lines, empty_head, Response, Memory, finish_body, is_no_body, count_header, header_lines,
}
use libcore.HttpResponse.Body.{IsBounded, read_body-length}

-- A head remembers a length beyond the limit.
pub remembers : Head → Bool
remembers h = not h.has_content_length || h.exceeds_body_cap || leb h.content_length http_max_body

content_length_header-remembers :
    (raw_val : List ℕ) (h k : Head)
    → content_length_header raw_val h ≡ some k
    → remembers h ≡ true
    → remembers k ≡ true
unfolding content_length_header remembers
content_length_header-remembers raw_val h k e r =
    elim (Option-cases (parse_content_length raw_val size_max)) [
      | inl f ↦ absurd (cc (simp (content_length_header, f) at e))
      | inr (n, f) ↦ let kept = simp (content_length_header, f) at e in ground arith
    ]

pub framing-IsBounded :
    (has_body : Bool) (h : Head) (f : Framing)
    → remembers h ≡ true
    → framing has_body h ≡ some f
    → IsBounded f
unfolding framing remembers IsBounded
framing-IsBounded has_body h no_body r e = tt
framing-IsBounded has_body h chunked r e = tt
framing-IsBounded has_body h to_end r e = tt
framing-IsBounded has_body h (sized n) r e = ground arith

put_header-remembers :
    (made : Bool) (key val : List ℕ) (h : Head)
    → remembers (put_header made key val h) ≡ remembers h
unfolding put_header remembers
put_header-remembers made key val h = ground arith

transfer_header-remembers :
    (key val : List ℕ) (h : Head) → remembers (transfer_header key val h) ≡ remembers h
unfolding transfer_header remembers
transfer_header-remembers key val h = ground arith

count_header-remembers :
    (key raw_val : List ℕ) (h k : Head)
    → count_header key raw_val h ≡ some k
    → remembers h ≡ true
    → remembers k ≡ true
unfolding count_header
count_header-remembers key raw_val h k e r = elim (Bool-cases (same_name key content_length_name)) [
  | inl f ↦ content_length_header-remembers raw_val h k (simp (count_header, f) at e) r
  | inr f ↦ let same : h ≡ k = cc (simp (count_header, f) at e) in simp (sym same) r
]

header_line-remembers :
    (made : Bool) (line : List ℕ) (h k : Head)
    → header_line made line h ≡ some k
    → remembers h ≡ true
    → remembers k ≡ true
unfolding header_line
header_line-remembers made line h k e r = elim (Option-cases (split_colon line)) [
  | inl f ↦ let same : h ≡ k = cc (simp (header_line, f) at e) in simp (sym same) r
  | inr ((key, raw_val), f) ↦
      let put = put_header made key (skip_space raw_val) h in
      elim (Option-cases (count_header key raw_val put)) [
        | inl g ↦ absurd (cc (simp (header_line, f, g) at e))
        | inr (m, g) ↦
            let same : transfer_header key (skip_space raw_val) m ≡ k =
              cc (simp (header_line, f, g) at e) in
            let ok =
              count_header-remembers key raw_val put m g
                (put_header-remembers made key (skip_space raw_val) h ∙ r) in
            ap remembers (sym same) ∙ transfer_header-remembers key (skip_space raw_val) m ∙ ok
      ]
]

read_lines-remembers :
    (made : List ℕ → Bool) (fuel count used : ℕ) (h k : Head) (bytes rest : List ℕ)
    → read_lines (λ l g. header_line (made l) l g) fuel count used h bytes ≡ some (k, rest)
    → remembers h ≡ true
    → remembers k ≡ true
unfolding read_lines
read_lines-remembers made zero count used h k bytes rest e r = absurd cc
read_lines-remembers made (suc fuel) count used h k bytes rest e r =
    elim (Option-cases (recv_line bytes)) [
      | inl f ↦ absurd (cc (simp (read_lines, f) at e))
      | inr ((line, ret, behind), f) ↦ elim (Bool-cases (is_empty line)) [
        | inl g ↦ let same : h ≡ k = cc (simp (read_lines, f, g) at e) in simp (sym same) r
        | inr g ↦
            elim (Bool-cases
              (leb http_max_header_count count || ltb (http_max_header_bytes - used) ret)) [
                | inl i ↦ absurd (cc (simp (read_lines, f, g, i) at e))
                | inr i ↦ elim (Option-cases (header_line (made line) line h)) [
                  | inl j ↦ absurd (cc (simp (read_lines, f, g, i, j) at e))
                  | inr (m, j) ↦
                      read_lines-remembers made fuel (suc count) (used + ret) m k behind rest
                        (simp (read_lines, f, g, i, j) at e)
                        (header_line-remembers (made line) line h m j r)
                ]
              ]
      ]
    ]

pub header_lines-remembers :
    (memory : Memory) (bytes : List ℕ) (k : Head) (rest : List ℕ)
    → header_lines memory bytes ≡ some (k, rest)
    → remembers k ≡ true
unfolding header_lines remembers
header_lines-remembers memory bytes k rest e =
    read_lines-remembers memory.for_cookie (suc (length bytes)) 0 0 empty_head k bytes rest e refl

pub finish_body-length :
    (memory : Memory) (status : ℕ) (h : Head) (f : Framing) (bytes : List ℕ) (res : Response)
    → IsBounded f
    → finish_body memory status h f bytes ≡ some res
    → (res.head ≡ h) × (res.status_code ≡ status) × (length res.body ≤ http_max_body)
unfolding finish_body
finish_body-length memory status h f bytes res b e =
    elim (Bool-cases (not (is_no_body f) && not memory.for_buffer)) [
      | inl g ↦ absurd (cc (simp (finish_body, g) at e))
      | inr g ↦ elim (Option-cases (read_body memory.writable f bytes)) [
        | inl i ↦ absurd (cc (simp (finish_body, g, i) at e))
        | inr (body, i) ↦ elim (Bool-cases memory.for_body) [
          | inr j ↦ absurd (cc (simp (finish_body, g, i, j) at e))
          | inl j ↦
              let same : record { status_code = status; head = h; body = body } ≡ res =
                cc (simp (finish_body, g, i, j) at e) in
              let n = read_body-length memory.writable f bytes body b i in
              (
                ap (λ (r : Response). r.head) (sym same),
                ap (λ (r : Response). r.status_code) (sym same),
                omega (arith, ap (λ (r : Response). length r.body) same),
              )
        ]
      ]
    ]
