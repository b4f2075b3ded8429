-- ===== src/HttpResponse/Framed.antt =====
-- src/http_response_parser.c: what the lines of a head say of the body's length, and that it is one thing.
use libcore.Base.{ℕ, suc, ◌≤◌, Bool, true, false, not, ◌||◌, ◌≡◌, sym, ap, ◌∙◌}
use libcore.Base.{Option, some, inl, inr, ◌⊎◌, List, ◌==◌, length, arith, Bool-cases, Option-cases}
use libcore.Base.Int.{ℤ}
use libcore.HttpResponse.Number.{parse_content_length, size_max}
use libcore.HttpResponse.{Head, Framing, framing, http_max_body}
use libcore.HttpResponse.Message.{content_length_name, transfer_encoding}
use libcore.HttpResponse.Message.{
  empty_head, Response, Memory, parse_head, header_lines, parse_with_options, first_line,
  read_status,
}
use libcore.HttpResponse.Bounds.{finish_body-length, framing-IsBounded, header_lines-remembers}
use libcore.HttpResponse.Heads.{
  IsField, Each, Each-map, head_lines, Remembers, Says, read_lines-Says,
}

-- If the line is a Content-Length field, its value is `n`.
unfoldable pub GivesLength : ℕ → List ℕ → Type 0
GivesLength n line =
    (raw : List ℕ)
    → IsField content_length_name line raw
    → parse_content_length raw size_max ≡ some n

-- The line is not the field of a name.
unfoldable pub IsNot : List ℕ → List ℕ → Type 0
IsNot name line = (raw : List ℕ) → IsField name line raw → ⊥

-- The lines give one length and no transfer encoding, or no length.
unfoldable pub HaveOneFraming : List (List ℕ) → Type 0
HaveOneFraming ls =
    ((n : ℕ) × Each (GivesLength n) ls × Each (IsNot transfer_encoding) ls)
    ⊎ Each (IsNot content_length_name) ls

-- A head that the checks let through says one thing of the body's length.
framing-HaveOneFraming :
    (h : Head) (f : Framing) (ls : List (List ℕ))
    → framing true h ≡ some f
    → Each (Says h) ls
    → HaveOneFraming ls
unfolding framing HaveOneFraming Says Remembers GivesLength IsNot
framing-HaveOneFraming h f ls e says = elim (Bool-cases h.has_content_length) [
  | inl a ↦
      let alone : h.has_transfer_encoding ≡ false = ground arith in
      let agreed : h.conflict ≡ false = ground arith in
      inl (
        h.content_length,
        Each-map (Says h) (GivesLength h.content_length) ls
            (λ l s raw field. (elim ((s.0 raw field).1) [
              | inl c ↦ absurd (cc (c, agreed))
              | inr same ↦ same
            ]))
            says,
        Each-map (Says h) (IsNot transfer_encoding) ls
            (λ l s raw field. absurd (cc (s.1 raw field, alone))) says,
      )
  | inr a ↦ inr (
      Each-map (Says h) (IsNot content_length_name) ls
        (λ l s raw field. absurd (cc ((s.0 raw field).0, a))) says)
]

-- What a response whose head is in the bytes `rest` has.
IsFramed : Bool → List ℕ → Response → Type 0
IsFramed is_head rest res =
    (length res.body ≤ http_max_body)
    × ((ls : List (List ℕ)) × (head_lines (suc (length rest)) rest ≡ some ls)
        × (not (is_head || res.status_code == 204 || res.status_code == 304) ≡ true
            → HaveOneFraming ls))

parse_head-IsFramed :
    (memory : Memory) (status : ℕ) (is_head : Bool) (rest : List ℕ) (res : Response)
    → parse_head memory status is_head rest ≡ some res
    → (res.status_code ≡ status) × IsFramed is_head rest res
unfolding parse_head header_lines IsFramed
parse_head-IsFramed memory status is_head rest res e =
    let has_body = not (is_head || status == 204 || status == 304) in
    elim (Option-cases (header_lines memory rest)) [
      | inl c ↦ absurd (cc (simp (parse_head, c) at e))
      | inr ((h, left), c) ↦ elim (Option-cases (framing has_body h)) [
        | inl d ↦ absurd (cc (simp (parse_head, c, d) at e))
        | inr (f, d) ↦
            let kept = header_lines-remembers memory rest h left c in
            let (same, code, n) =
              finish_body-length memory status h f left res (framing-IsBounded has_body h f kept d)
                (simp (parse_head, c, d) at e) in
            let (keeps, (ls, lines, says)) =
              read_lines-Says memory.for_cookie (suc (length rest)) 0 0 empty_head h rest left c in
            (
              code,
              (
                n,
                (
                  ls,
                  lines,
                  λ with_body.
                      (let here : has_body ≡ true =
                          ap (λ s. not (is_head || s == 204 || s == 304)) (sym code) ∙ with_body in
                        framing-HaveOneFraming h f ls (ap (λ b. framing b h) (sym here) ∙ d) says),
                ),
              ),
            )
      ]
    ]

-- The status line and the head of the response that was read, and what it has.
pub IsAccepted : (List ℕ → Option ℤ) → List ℕ → Bool → List ℕ → Response → Type 0
IsAccepted scan_status initial is_head bytes res =
    (line : List ℕ) × (behind : List ℕ) × (rest : List ℕ) × (first_line initial bytes
      ≡ some (line, behind))
    × (read_status scan_status 11 0 line behind ≡ some (res.status_code, rest))
    × IsFramed is_head rest res

-- No response that is accepted has a body of more than 16 MiB, however the connection delimits it; and where
-- the method is not HEAD and the status neither 204 nor 304, the lines of its head give one length, in every
-- Content-Length field, and no Transfer-Encoding field, or they give no length.
pub parse_with_options-IsAccepted :
    (scan_status : List ℕ → Option ℤ) (memory : Memory) (initial : List ℕ) (is_head : Bool)
    (bytes : List ℕ) (res : Response)
    → parse_with_options scan_status memory initial is_head bytes ≡ some res
    → IsAccepted scan_status initial is_head bytes res
unfolding parse_with_options IsAccepted
parse_with_options-IsAccepted scan_status memory initial is_head bytes res e =
    elim (Bool-cases memory.for_response) [
      | inr m ↦ absurd (cc (simp (parse_with_options, m) at e))
      | inl m ↦ elim (Option-cases (first_line initial bytes)) [
        | inl a ↦ absurd (cc (simp (parse_with_options, m, a) at e))
        | inr ((line, behind), a) ↦ elim (Option-cases (read_status scan_status 11 0 line behind)) [
          | inl b ↦ absurd (cc (simp (parse_with_options, m, a, b) at e))
          | inr ((status, rest), b) ↦
              let (code, framed) =
                parse_head-IsFramed memory status is_head rest res
                  (simp (parse_with_options, m, a, b) at e) in
              (line, behind, rest, a, b ∙ ap (λ s. some (s, rest)) (sym code), framed)
        ]
      ]
    ]
