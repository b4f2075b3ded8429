-- ===== src/Judge/Count.antt =====
-- src/toos_type_judge.c: the count of characters.
use libcore.Base.{ℕ, ◌+◌, ◌/◌, ◌%◌, ◌^◌, ◌<◌, ◌≤◌, true, inl, inr, ◌≡◌, ◌≢◌}
use libcore.Base.{List, [], ◌∷◌, ◌++◌, ltb, length, arith, Bool-cases}
use libcore.Base.Utf8.{utf8, utf8_all, all_below}
use libcore.Judge.{count_from, count_chars, uint32_max, is_language}

count_skip :
    (c : ℕ) (cs : List ℕ) (count : ℕ)
    → c < 64
    → count_from ((0x80 + c) ∷ cs) count ≡ count_from cs count
unfolding count_from
count_skip c cs count h = let e : (0x80 + c) / 64 % 4 ≡ 2 = omega arith in ground arith

count_first :
    (c : ℕ) (cs : List ℕ) (count : ℕ)
    → c / 64 % 4 ≢ 2
    → count < uint32_max
    → count_from (c ∷ cs) count ≡ count_from cs (count + 1)
unfolding count_from
count_first c cs count h l = ground arith

nil_count : (count : ℕ) → count_from [] count ≡ count + 0
unfolding count_from
nil_count count = omega arith

count_from-utf8 :
    (cp : ℕ) (cs : List ℕ) (count : ℕ)
    → cp < 2 ^ 21
    → count < uint32_max
    → count_from (utf8 cp ++ cs) count ≡ count_from cs (count + 1)
unfolding utf8
count_from-utf8 cp cs count h l =
    let b0 = 0x80 + cp % 64 in
    let b1 = 0x80 + cp / 64 % 64 in
    let b2 = 0x80 + cp / 4096 % 64 in
    let s0 = count_skip (cp % 64) cs (count + 1) (omega arith) in
    let s1 = count_skip (cp / 64 % 64) (b0 ∷ cs) (count + 1) (omega arith) in
    let s2 = count_skip (cp / 4096 % 64) (b1 ∷ b0 ∷ cs) (count + 1) (omega arith) in
    elim (Bool-cases (ltb cp 0x80)) [
      | inl e ↦ let lead = count_first cp cs count (λ x. ground arith) l in ground arith
      | inr e ↦ elim (Bool-cases (ltb cp 0x800)) [
        | inl e2 ↦
            let lead = count_first (0xC0 + cp / 64) (b0 ∷ cs) count (λ x. ground arith) l in
            ground arith
        | inr e2 ↦ elim (Bool-cases (ltb cp 0x10000)) [
          | inl e3 ↦
              let lead =
                count_first (0xE0 + cp / 4096) (b1 ∷ b0 ∷ cs) count (λ x. ground arith) l in
              ground arith
          | inr e3 ↦
              let lead =
                count_first (0xF0 + cp / 262144) (b2 ∷ b1 ∷ b0 ∷ cs) count (λ x. ground arith) l in
              ground arith
        ]
      ]
    ]

count_from-utf8_all :
    (cps : List ℕ) (count : ℕ)
    → all_below (2 ^ 21) cps ≡ true
    → count + length cps ≤ uint32_max
    → count_from (utf8_all cps) count ≡ count + length cps
unfolding utf8_all all_below
count_from-utf8_all [] count h l = nil_count count
count_from-utf8_all (cp ∷ cps) count h l =
    let step = count_from-utf8 cp (utf8_all cps) count (ground arith) (omega arith) in
    let ih = count_from-utf8_all cps (count + 1) (ground arith) (omega arith) in ground arith

-- Counting the UTF-8 text of a sequence of code points gives their number, in either language, where
-- there are fewer than 2^32 of them.
pub count_chars-utf8 :
    (cps : List ℕ) (lang : ℕ)
    → is_language lang ≡ true
    → all_below (2 ^ 21) cps ≡ true
    → length cps ≤ uint32_max
    → count_chars (utf8_all cps) lang ≡ length cps
unfolding count_chars
count_chars-utf8 cps lang known h l =
    let all = count_from-utf8_all cps 0 h (omega arith) in ground arith
