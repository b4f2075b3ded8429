-- ===== src/Judge.antt =====
-- src/toos_type_judge.c: the judge of the typing game. It keeps no state. The text of a sentence is
-- an array of 512 bytes; no pointer is NULL; the typed text is the list of its `typed_len` bytes.
pub mod Verdict
pub mod Count
mod Tests
use libcore.Base.{ℕ, zero, suc, ◌+◌, ◌-◌, ◌*◌, ◌/◌, ◌%◌, ◌^◌, Bool, true, false, not, ◌&&◌, ◌||◌}
use libcore.Base.{Option, none, some, List, [], ◌∷◌, ltb, leb, ◌==◌, if◌then◌else◌, length, take}

abbrev pub text_max_bytes : ℕ
text_max_bytes = 512

abbrev pub lang_en : ℕ
lang_en = 1

abbrev pub lang_ko : ℕ
lang_ko = 2

pub record Sentence : Type 0 where
  pub id : ℕ
  pub ko_text : List ℕ
  pub en_text : List ℕ

pub data JudgeResult : Type 0 where
  correct : JudgeResult
  incorrect : JudgeResult
  expired : JudgeResult
  stale : JudgeResult
  error : JudgeResult

-- The loop, with the bytes from index `i` on that are still in the array.
pub nul_from : List ℕ → ℕ → Option ℕ
nul_from [] i = none
nul_from (b ∷ bs) i = let rest = nul_from bs (i + 1) in if b == 0 then some i else rest

pub bounded_text_len : List ℕ → ℕ → Option ℕ
bounded_text_len text capacity = if capacity == 0 then none else nul_from (take capacity text) 0

-- `memcmp(a, b, n) == 0`.
pub same_bytes : ℕ → List ℕ → List ℕ → Bool
same_bytes zero _ _ = true
same_bytes (suc n) (a ∷ xs) (b ∷ ys) = a == b && same_bytes n xs ys
same_bytes (suc n) _ _ = false

pub is_language : ℕ → Bool
is_language lang = lang == lang_en || lang == lang_ko

pub expected_text : Sentence → ℕ → List ℕ
expected_text s lang = if lang == lang_en then s.en_text else s.ko_text

pub submit : Sentence → ℕ → ℕ → List ℕ → ℕ → ℕ → ℕ → JudgeResult
submit target expected_id submitted_id typed now_ms deadline_ms lang =
    if expected_id == 0 || deadline_ms == 0
    then error
    else if not (is_language lang)
    then error
    else if not (target.id == expected_id)
    then error
    else if not (submitted_id == expected_id)
    then stale
    else if leb deadline_ms now_ms
    then expired
    else elim (bounded_text_len (expected_text target lang) text_max_bytes) [
      | none ↦ error
      | some expected_len ↦
          if not (length typed == expected_len)
          then incorrect
          else if expected_len == 0
          then correct
          else if same_bytes expected_len typed (expected_text target lang)
          then correct
          else incorrect
    ]

abbrev pub uint32_max : ℕ
uint32_max = 2 ^ 32 - 1

-- The loop on the bytes that are left: `(c & 0xC0) != 0x80`, and a count that saturates.
pub count_from : List ℕ → ℕ → ℕ
count_from [] count = count
count_from (c ∷ cs) count =
    let skipped = count_from cs count in
    let counted = count_from cs (count + 1) in
    if c / 64 % 4 == 2 then skipped else if count == uint32_max then uint32_max else counted

pub count_chars : List ℕ → ℕ → ℕ
count_chars text lang = if not (is_language lang) then 0 else count_from text 0
