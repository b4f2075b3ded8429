-- ===== src/HttpResponse/Heads.antt =====
-- src/http_response_parser.c: what a head remembers of the lines that it was read from.
use libcore.Base.{
  ℕ, zero, suc, ◌+◌, ◌-◌, Bool, true, false, not, ◌&&◌, ◌||◌, ◌≡◌, refl, sym, ap, ◌∙◌,
}
use libcore.Base.{
  Option, none, some, inl, inr, ◌⊎◌, List, [], ◌∷◌, ltb, leb, ◌==◌, arith, Bool-cases, Option-cases,
}
use libcore.HttpResponse.Number.{is_empty, parse_content_length, size_max}
use libcore.HttpResponse.{
  Head, recv_line, content_length_header, http_max_body, http_max_header_count,
  http_max_header_bytes,
}
use libcore.HttpResponse.Message.{
  split_colon, skip_space, same_name, put_header, transfer_header, header_line, count_header,
  content_length_name, transfer_encoding, set_cookie,
}
use libcore.HttpResponse.Message.{read_lines}
use mathlib.Core.Path.{subst}
use mathlib.Core.Option.{some-injective}

-- A line is the field of a name, with what stands behind its colon.
unfoldable pub IsField : List ℕ → List ℕ → List ℕ → Type 0
IsField name line raw =
    (key : List ℕ) × (split_colon line ≡ some (key, raw)) × (same_name key name ≡ true)

unfoldable pub Each : (List ℕ → Type 0) → List (List ℕ) → Type 0
Each P [] = Unit
Each P (l ∷ ls) = P l × Each P ls

pub Each-map :
    (P Q : List ℕ → Type 0) (ls : List (List ℕ))
    → ((l : List ℕ) → P l → Q l)
    → Each P ls
    → Each Q ls
unfolding Each
Each-map P Q [] f h = tt
Each-map P Q (l ∷ ls) f (h, hs) = (f l h, Each-map P Q ls f hs)

-- The lines up to the empty one.
unfoldable pub head_lines : ℕ → List ℕ → Option (List (List ℕ))
head_lines zero bytes = none
head_lines (suc fuel) bytes = elim (recv_line bytes) [
  | none ↦ none
  | some (line, ret, rest) ↦ elim (is_empty line) [
    | true ↦ some []
    | false ↦ elim (head_lines fuel rest) [ none ↦ none | some ls ↦ some (line ∷ ls) ]
  ]
]

-- What a head remembers of a Content-Length field.
unfoldable pub Remembers : List ℕ → Head → Type 0
Remembers raw h =
    (h.has_content_length ≡ true)
    × ((h.conflict ≡ true) ⊎ (parse_content_length raw size_max ≡ some h.content_length))

-- What a head remembers of a line.
unfoldable pub Says : Head → List ℕ → Type 0
Says h line =
    ((raw : List ℕ) → IsField content_length_name line raw → Remembers raw h)
    × ((raw : List ℕ) → IsField transfer_encoding line raw → h.has_transfer_encoding ≡ true)

-- What a head remembers it keeps.
pub Keeps : Head → Head → Type 0
Keeps h k =
    (h.has_content_length ≡ true
      → (k.has_content_length ≡ true)
        × ((k.conflict ≡ true) ⊎ (k.content_length ≡ h.content_length)))
    × (h.conflict ≡ true → k.conflict ≡ true)
    × (h.has_transfer_encoding ≡ true → k.has_transfer_encoding ≡ true)

Keeps-refl : (h : Head) → Keeps h h
unfolding Keeps
Keeps-refl h = (λ e. (e, inr refl), λ e. e, λ e. e)

Keeps-trans : (h k m : Head) → Keeps h k → Keeps k m → Keeps h m
unfolding Keeps
Keeps-trans h k m (a, b, c) (a', b', c') = (
  λ e.
      (let (has, same) = a e in
        let (has', same') = a' has in
        (
          has',
          elim same [
            | inl f ↦ inl (b' f)
            | inr f ↦ elim same' [ inl g ↦ inl g | inr g ↦ inr (g ∙ f) ]
          ],
        )),
  λ e. b' (b e),
  λ e. c' (c e),
)

Remembers-Keeps : (raw : List ℕ) (h k : Head) → Keeps h k → Remembers raw h → Remembers raw k
unfolding Remembers Keeps
Remembers-Keeps raw h k (a, b, c) (has, same) =
    let (has', same') = a has in
    (
      has',
      elim same [
        | inl g ↦ inl (b g)
        | inr g ↦ elim same' [ inl i ↦ inl i | inr i ↦ inr (g ∙ ap some (sym i)) ]
      ],
    )

Says-Keeps : (h k : Head) (line : List ℕ) → Keeps h k → Says h line → Says k line
unfolding Says Keeps
Says-Keeps h k line keeps (s, t) =
    (λ raw f. Remembers-Keeps raw h k keeps (s raw f), λ raw f. keeps.2 (t raw f))

-- What is kept and said after a Content-Length field.
Counted : List ℕ → Head → Head → Type 0
Counted raw h k = Keeps h k × Remembers raw k

first_length :
    (raw : List ℕ) (n : ℕ) (exceeds : Bool) (h : Head)
    → parse_content_length raw size_max ≡ some n
    → h.has_content_length ≡ false
    → Counted raw h
        (record h { content_length = n; has_content_length = true; exceeds_body_cap = exceeds })
unfolding Counted Remembers Keeps
first_length raw n exceeds h f g = ((λ e. absurd (cc (e, g)), λ e. e, λ e. e), (refl, inr f))

next_length :
    (raw : List ℕ) (n : ℕ) (exceeds : Bool) (h : Head)
    → parse_content_length raw size_max ≡ some n
    → h.has_content_length ≡ true
    → Counted raw h (record h {
      has_content_length = true;
      conflict = not (n == h.content_length) || h.conflict;
      exceeds_body_cap = exceeds;
    })
unfolding Counted Remembers Keeps
next_length raw n exceeds h f g = (
  (λ e. (refl, inr refl), λ e. (ground arith), λ e. e),
  (
    refl,
    elim (Bool-cases (n == h.content_length)) [
      | inl e ↦ let same : n ≡ h.content_length = ground arith in inr (f ∙ ap some same)
      | inr e ↦ inl (ground arith)
    ],
  ),
)

content_length_header-Counted :
    (raw : List ℕ) (h k : Head) → content_length_header raw h ≡ some k → Counted raw h k
unfolding content_length_header
content_length_header-Counted raw h k e = elim (Option-cases (parse_content_length raw size_max)) [
  | inl f ↦ absurd (cc (simp (content_length_header, f) at e))
  | inr (n, f) ↦
      let exceeds = ltb http_max_body n || h.exceeds_body_cap in
      elim (Bool-cases h.has_content_length) [
        | inr g ↦
            subst (Counted raw h) (some-injective _ _ (simp (content_length_header, f, g) at e))
              (first_length raw n exceeds h f g)
        | inl g ↦
            subst (Counted raw h) (some-injective _ _ (simp (content_length_header, f, g) at e))
              (next_length raw n exceeds h f g)
      ]
]

put_header-Keeps : (made : Bool) (key val : List ℕ) (h : Head) → Keeps h (put_header made key val h)
unfolding Keeps put_header
put_header-Keeps made key val h = elim (Bool-cases (same_name key set_cookie && made)) [
  | inl e ↦ simp e (Keeps-refl h)
  | inr e ↦ simp e (Keeps-refl h)
]

transfer_header-Keeps : (key val : List ℕ) (h : Head) → Keeps h (transfer_header key val h)
unfolding Keeps transfer_header
transfer_header-Keeps key val h = elim (Bool-cases (same_name key transfer_encoding)) [
  | inl e ↦ simp e (λ a. (a, inr refl), λ a. a, λ a. refl)
  | inr e ↦ simp e (Keeps-refl h)
]

transfer_header-has :
    (key val : List ℕ) (h : Head)
    → same_name key transfer_encoding ≡ true
    → (transfer_header key val h).has_transfer_encoding ≡ true
unfolding transfer_header
transfer_header-has key val h e = simp e refl

count_header-Keeps : (key raw : List ℕ) (h k : Head) → count_header key raw h ≡ some k → Keeps h k
unfolding count_header Counted
count_header-Keeps key raw h k e = elim (Bool-cases (same_name key content_length_name)) [
  | inl f ↦ (content_length_header-Counted raw h k (simp (count_header, f) at e)).0
  | inr f ↦ subst (Keeps h) (some-injective _ _ (simp (count_header, f) at e)) (Keeps-refl h)
]

count_header-Counted :
    (key raw : List ℕ) (h k : Head)
    → count_header key raw h ≡ some k
    → same_name key content_length_name ≡ true
    → Counted raw h k
unfolding count_header
count_header-Counted key raw h k e f =
    content_length_header-Counted raw h k (simp (count_header, f) at e)

-- The head after a line keeps what it remembered, and says what the line does.
header_line-Says :
    (made : Bool) (line : List ℕ) (h k : Head)
    → header_line made line h ≡ some k
    → Keeps h k × Says k line
unfolding header_line Says IsField Counted
header_line-Says made line h k e = elim (Option-cases (split_colon line)) [
  | inl f ↦ (
    subst (Keeps h) (some-injective _ _ (simp (header_line, f) at e)) (Keeps-refl h),
    (λ raw (key, g, i). absurd (cc (f, g)), λ raw (key, g, i). absurd (cc (f, g))),
  )
  | inr ((key, raw), f) ↦
      let val = skip_space raw in
      let put = put_header made key val h in
      elim (Option-cases (count_header key raw put)) [
        | inl g ↦ absurd (cc (simp (header_line, f, g) at e))
        | inr (m, g) ↦
            let same = some-injective _ _ (simp (header_line, f, g) at e) in
            let first = put_header-Keeps made key val h in
            let second = count_header-Keeps key raw put m g in
            let last = transfer_header-Keeps key val m in
            subst (λ h'. Keeps h h' × Says h' line) same
              (
                Keeps-trans h put _ first (Keeps-trans put m _ second last),
                (
                  λ raw' (key', i, name).
                      (let pair = some-injective _ _ (sym f ∙ i) in
                        let named : same_name key content_length_name ≡ true =
                          ap (λ c. same_name (c.0) content_length_name) pair ∙ name in
                        subst (λ r. Remembers r (transfer_header key val m)) (ap (λ c. c.1) pair)
                          (Remembers-Keeps raw m _ last
                            (count_header-Counted key raw put m g named).1)),
                  λ raw' (key', i, name).
                      (let pair = some-injective _ _ (sym f ∙ i) in
                        transfer_header-has key val m
                          (ap (λ c. same_name (c.0) transfer_encoding) pair ∙ name)),
                ),
              )
      ]
]

pub read_lines-Says :
    (made : List ℕ → Bool) (fuel count used : ℕ) (h k : Head) (bytes rest : List ℕ)
    → read_lines (λ l g. header_line (made l) l g) fuel count used h bytes ≡ some (k, rest)
    → Keeps h k × ((ls : List (List ℕ)) × (head_lines fuel bytes ≡ some ls) × Each (Says k) ls)
unfolding read_lines head_lines Each
read_lines-Says made zero count used h k bytes rest e = absurd cc
read_lines-Says made (suc fuel) count used h k bytes rest e =
    elim (Option-cases (recv_line bytes)) [
      | inl f ↦ absurd (cc (simp (read_lines, f) at e))
      | inr ((line, ret, behind), f) ↦ elim (Bool-cases (is_empty line)) [
        | inl g ↦
            let same : h ≡ k = cc (simp (read_lines, f, g) at e) in
            (subst (Keeps h) same (Keeps-refl h), ([], simp (head_lines, f, g) refl, tt))
        | inr g ↦
            elim (Bool-cases
              (leb http_max_header_count count || ltb (http_max_header_bytes - used) ret)) [
                | inl i ↦ absurd (cc (simp (read_lines, f, g, i) at e))
                | inr i ↦ elim (Option-cases (header_line (made line) line h)) [
                  | inl j ↦ absurd (cc (simp (read_lines, f, g, i, j) at e))
                  | inr (m, j) ↦
                      let (keeps, said) = header_line-Says (made line) line h m j in
                      let (keeps', (ls, lines, says)) =
                        read_lines-Says made fuel (suc count) (used + ret) m k behind rest
                          (simp (read_lines, f, g, i, j) at e) in
                      (
                        Keeps-trans h m k keeps keeps',
                        (
                          line ∷ ls,
                          simp (head_lines, f, g, lines) refl,
                          (Says-Keeps m k line keeps' said, says),
                        ),
                      )
                ]
              ]
      ]
    ]
