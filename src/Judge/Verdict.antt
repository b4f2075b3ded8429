-- ===== src/Judge/Verdict.antt =====
-- src/toos_type_judge.c: which verdict a submission gets.
use libcore.Base.{ℕ, zero, suc, ◌+◌, ◌<◌, true, ◌&&◌, ◌≡◌, refl, sym, ◌∙◌, ◌≢◌, ◌↔◌, inl, inr}
use libcore.Base.{
  Option, none, some, List, [], ◌∷◌, ◌==◌, if◌then◌else◌, length, take, arith, Bool-cases,
  Option-cases,
}
use mathlib.Core.Bool.{false≢true}
use libcore.Judge.{
  Sentence, correct, stale, error, nul_from, bounded_text_len, same_bytes, is_language,
  expected_text, submit, text_max_bytes,
}

-- The bytes in front of the first NUL of an array.
pub c_string : List ℕ → Option (List ℕ)
c_string [] = none
c_string (b ∷ bs) =
    let rest = c_string bs in
    if b == 0 then some [] else elim rest [ none ↦ none | some s ↦ some (b ∷ s) ]

-- What the server knows is consistent.
unfoldable pub IsConsistent : Sentence → ℕ → ℕ → ℕ → Type 0
IsConsistent target expected_id deadline_ms lang =
    (expected_id ≢ 0) × (deadline_ms ≢ 0) × (is_language lang ≡ true) × (target.id ≡ expected_id)

c_string-nul :
    (text : List ℕ) (i : ℕ) (s : List ℕ)
    → c_string text ≡ some s
    → nul_from text i ≡ some (i + length s)
unfolding c_string nul_from
c_string-nul [] i s h = ground arith
c_string-nul (b ∷ bs) i s h = elim (Option-cases (c_string bs)) [
  | inl e ↦ ground arith
  | inr (t, e) ↦ let ih = c_string-nul bs (i + 1) t e in ground arith
]

c_string-nul_none : (text : List ℕ) (i : ℕ) → c_string text ≡ none → nul_from text i ≡ none
unfolding c_string nul_from
c_string-nul_none [] i h = refl
c_string-nul_none (b ∷ bs) i h = elim (Option-cases (c_string bs)) [
  | inl e ↦ let ih = c_string-nul_none bs (i + 1) e in ground arith
  | inr (t, e) ↦ ground arith
]

same_bytes-c_string :
    (n : ℕ) (text s : List ℕ)
    → c_string (take n text) ≡ some s
    → same_bytes (length s) s text ≡ true
unfolding c_string same_bytes
same_bytes-c_string zero text s h = ground arith
same_bytes-c_string (suc n) [] s h = ground arith
same_bytes-c_string (suc n) (b ∷ bs) s h = elim (Option-cases (c_string (take n bs))) [
  | inl e ↦ ground arith
  | inr (t, e) ↦ let ih = same_bytes-c_string n bs t e in grind arith
]

c_string-same_bytes :
    (n : ℕ) (text s typed : List ℕ)
    → c_string (take n text) ≡ some s
    → length typed ≡ length s
    → same_bytes (length s) typed text ≡ true
    → typed ≡ s
unfolding c_string same_bytes
c_string-same_bytes zero text s typed h l m = ground arith
c_string-same_bytes (suc n) [] s typed h l m = ground arith
c_string-same_bytes (suc n) (b ∷ bs) s [] h l m = ground arith
c_string-same_bytes (suc n) (b ∷ bs) [] (a ∷ xs) h l m = ground arith
c_string-same_bytes (suc n) (b ∷ bs) (c ∷ s) (a ∷ xs) h l m =
    elim (Option-cases (c_string (take n bs))) [
      | inl e ↦ ground arith
      | inr (t, e) ↦
          let ts : t ≡ s = ground arith in
          let same : (a == b) ≡ true = ground arith in
          let rest : same_bytes (length s) xs bs ≡ true = ground arith in
          let len : length xs ≡ length s = ground arith in
          let ih : xs ≡ s = c_string-same_bytes n bs s xs (grind arith) len rest in grind arith
    ]

same_bytes_none : (n : ℕ) (xs ys : List ℕ) → (n == 0) ≡ true → same_bytes n xs ys ≡ true
unfolding same_bytes
same_bytes_none zero xs ys h = refl
same_bytes_none (suc n) xs ys h = ground arith

matches-c_string :
    (n : ℕ) (text s typed : List ℕ)
    → c_string (take n text) ≡ some s
    → ((length typed == length s && same_bytes (length s) typed text) ≡ true) ↔ (typed ≡ s)
matches-c_string n text s typed h = (
  λ m. c_string-same_bytes n text s typed h (ground arith) (ground arith),
  λ same. let full = same_bytes-c_string n text s h in grind arith,
)

-- A submission is correct exactly when the server's state is consistent and has the language, the
-- sentence is the one submitted for, the deadline is ahead, and the bytes typed are those of the
-- sentence's text in front of its NUL.
pub submit-correct :
    (target : Sentence) (expected_id submitted_id : ℕ) (typed : List ℕ)
    (now_ms deadline_ms lang : ℕ)
    → (submit target expected_id submitted_id typed now_ms deadline_ms lang ≡ correct) ↔ (
        IsConsistent target expected_id deadline_ms lang
        × (submitted_id ≡ expected_id)
        × (now_ms < deadline_ms)
        × (c_string (take text_max_bytes (expected_text target lang)) ≡ some typed))
unfolding submit bounded_text_len IsConsistent
submit-correct target expected_id submitted_id typed now_ms deadline_ms lang =
    elim (Option-cases (c_string (take text_max_bytes (expected_text target lang)))) [
      | inl e ↦
          let len = c_string-nul_none (take text_max_bytes (expected_text target lang)) 0 e in
          ground arith
      | inr (s, e) ↦
          let len = c_string-nul (take text_max_bytes (expected_text target lang)) 0 s e in
          let matches = matches-c_string text_max_bytes (expected_text target lang) s typed e in
          elim (Bool-cases
            (length typed == length s && same_bytes (length s) typed (expected_text target lang))) [
              | inl f ↦ let same : typed ≡ s = matches.0 f in ground arith
              | inr f ↦
                  let nothing = same_bytes_none (length s) typed (expected_text target lang) in
                  let other : c_string (take text_max_bytes (expected_text target lang))
                      ≢ some typed =
                    λ same. false≢true (sym f ∙ matches.1 (grind arith)) in
                  elim (Bool-cases (length s == 0)) [
                    | inl z ↦ let at_zero = nothing z in ground arith
                    | inr z ↦ ground arith
                  ]
            ]
    ]

-- A submission for another sentence is stale whenever the server's state is consistent, and at no
-- other time: what the clock says and what was typed play no part.
pub submit-stale :
    (target : Sentence) (expected_id submitted_id : ℕ) (typed : List ℕ)
    (now_ms deadline_ms lang : ℕ)
    → (submit target expected_id submitted_id typed now_ms deadline_ms lang ≡ stale)
      ↔ (IsConsistent target expected_id deadline_ms lang × (submitted_id ≢ expected_id))
unfolding submit IsConsistent
submit-stale target expected_id submitted_id typed now_ms deadline_ms lang =
    elim (Option-cases (bounded_text_len (expected_text target lang) text_max_bytes)) [
      | inl e ↦ ground arith
      | inr (n, e) ↦ ground arith
    ]

-- A consistent server answers an error only for the active sentence, ahead of its deadline, where
-- the text has no NUL in its 512 bytes.
pub submit-error :
    (target : Sentence) (expected_id submitted_id : ℕ) (typed : List ℕ)
    (now_ms deadline_ms lang : ℕ)
    → IsConsistent target expected_id deadline_ms lang
    → (submit target expected_id submitted_id typed now_ms deadline_ms lang ≡ error) ↔ (
        (submitted_id ≡ expected_id)
        × (now_ms < deadline_ms)
        × (c_string (take text_max_bytes (expected_text target lang)) ≡ none))
unfolding submit IsConsistent bounded_text_len
submit-error target expected_id submitted_id typed now_ms deadline_ms lang ok =
    elim (Option-cases (c_string (take text_max_bytes (expected_text target lang)))) [
      | inl e ↦
          let len = c_string-nul_none (take text_max_bytes (expected_text target lang)) 0 e in
          ground arith
      | inr (s, e) ↦
          let len = c_string-nul (take text_max_bytes (expected_text target lang)) 0 s e in
          ground arith
    ]
