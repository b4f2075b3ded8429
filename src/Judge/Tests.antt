-- ===== src/Judge/Tests.antt =====
-- The theorems on the judge at concrete submissions.
use libcore.Base.{ℕ, ◌<◌, ◌^◌, true, ◌≡◌, refl, ◌↔◌, some, [], ◌∷◌, replicate, take, arith}
use libcore.Judge.{
  Sentence, correct, error, submit, is_language, nul_from, bounded_text_len, expected_text,
  text_max_bytes,
}
use libcore.Judge.Verdict.{c_string, IsConsistent, submit-correct}
use libcore.Base.Utf8.{all_below}

abbrev active : ℕ
active = 7

abbrev previous : ℕ
previous = 6

abbrev hello : Sentence
hello = record { id = 7; ko_text = replicate 512 65; en_text = b'h' ∷ b'i' ∷ replicate 510 0 }

consistent : (lang : ℕ) → is_language lang ≡ true → IsConsistent hello 7 1000 lang
unfolding IsConsistent
consistent lang known = ((λ e. ground arith), (λ e. ground arith), known, refl)

english : is_language 1 ≡ true
unfolding is_language
english = refl

-- The text of the other language fills its array without a NUL: an error, not a wrong answer.
no_nul : submit hello 7 7 (b'h' ∷ []) 999 1000 2 ≡ error
unfolding submit is_language bounded_text_len nul_from expected_text
no_nul = refl

submit-correct_example : (submit hello 7 7 (b'h' ∷ b'i' ∷ []) 999 1000 1 ≡ correct) ↔ (
    IsConsistent hello 7 1000 1
    × (active ≡ active)
    × (999 < 1000)
    × (c_string (take text_max_bytes (expected_text hello 1)) ≡ some (b'h' ∷ b'i' ∷ [])))
submit-correct_example = submit-correct hello 7 7 (b'h' ∷ b'i' ∷ []) 999 1000 1

few : all_below (2 ^ 21) (0xC548 ∷ 0xB155 ∷ 33 ∷ []) ≡ true
unfolding all_below
few = refl
