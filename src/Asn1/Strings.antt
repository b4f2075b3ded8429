-- ===== src/Asn1/Strings.antt =====
-- src/asn1.c: octet strings, encoded and decoded.
use libcore.Base.{
  ℕ, ◌-◌, ◌<◌, ◌≤◌, ◌≡◌, refl, sym, ap, ap₂, ◌∙◌, arith, true, false, some, List, [], ◌∷◌, ◌++◌,
  ltb, ◌==◌, if◌then◌else◌, length, length-append, append_assoc, append-nil, take-append_exact,
  drop-append_exact, Bool-cases, inl, inr, ltb-false,
}
use libcore.Asn1.{
  size_max, octet_string, decode_length, encode_length, decode_string, encode_string,
}
use libcore.Asn1.RoundTrip.{decode_length-encode_length}

nothing_behind : (head str : List ℕ) → length str ≡ 0 → head ≡ head ++ str
nothing_behind head [] h = sym (append-nil head)
nothing_behind head (x ∷ str) h = absurd (omega (arith, h))

-- What an encoder that succeeds has put: the tag, a length, and the string.
encode_string_lem :
    (room : ℕ) (str : List ℕ)
    → (encode_string room str).0 ≡ true
    → ((encode_length (room - 1) (length str)).0 ≡ true)
      × ((encode_string room str).1
          ≡ octet_string ∷ ((encode_length (room - 1) (length str)).1 ++ str))
unfolding encode_string
encode_string_lem room str ok =
    let head = encode_length (room - 1) (length str) in
    elim (Bool-cases (ltb room 1)) [
      | inl a ↦ absurd (ground arith)
      | inr a ↦ elim (Bool-cases (head.0)) [
        | inr b ↦ absurd (ground arith)
        | inl b ↦ elim (Bool-cases (length str == 0)) [
          | inl c ↦
              simp (a, b, c)
                (refl, ap (λ bs. octet_string ∷ bs) (nothing_behind (head.1) str (ground arith)))
          | inr c ↦ elim (Bool-cases (ltb (room - 1 - length (head.1)) (length str))) [
            | inl d ↦ absurd (ground arith)
            | inr d ↦ simp (a, b, c, d) (refl, refl)
          ]
        ]
      ]
    ]

-- A string that is decoded from a length and its bytes.
decode_string_lem :
    (bs str rest : List ℕ) (max_len : ℕ)
    → decode_length bs ≡ some (length str, str ++ rest)
    → length str < max_len
    → decode_string (octet_string ∷ bs) max_len ≡ some (str, rest)
unfolding decode_string
decode_string_lem bs str rest max_len h l =
    let n = length str in
    let some_room : (max_len == 0) ≡ false = ground arith in
    let size = length-append str rest in
    let there : ltb (length (str ++ rest)) n ≡ false =
      ltb-false (length (str ++ rest)) n (omega (arith, size)) in
    let uncut : (if ltb n (max_len - 1) then n else max_len - 1) ≡ n = ground arith in
    rw (some_room, h, there, uncut)
      (ap₂ (λ a b. some (a, b)) (take-append_exact n str rest refl)
        (drop-append_exact n str rest refl))

-- A string that the encoder puts in the room it has is the string that the decoder gives, with what comes
-- behind, to a caller who has room for it and the NUL.
pub decode_string-encode_string :
    (room max_len : ℕ) (str rest : List ℕ)
    → length str ≤ size_max
    → length str < max_len
    → (encode_string room str).0 ≡ true
    → decode_string ((encode_string room str).1 ++ rest) max_len ≡ some (str, rest)
decode_string-encode_string room max_len str rest m l ok =
    let (head_ok, put) = encode_string_lem room str ok in
    let head = (encode_length (room - 1) (length str)).1 in
    let back = decode_length-encode_length (room - 1) (length str) (str ++ rest) m head_ok in
    let whole : decode_length ((head ++ str) ++ rest) ≡ some (length str, str ++ rest) =
      ap decode_length (append_assoc head str rest) ∙ back.0 in
    ap (λ bs. decode_string (bs ++ rest) max_len) put
    ∙ decode_string_lem ((head ++ str) ++ rest) str rest max_len whole l
