-- ===== src/PathValidator/Utf8.antt =====
-- src/path_validator.c: `rule_02_check_utf8` against UTF-8 itself.
use libcore.Base.{ℕ, zero, suc, ◌+◌, ◌-◌, ◌*◌, ◌/◌, ◌^◌, ◌≤◌, ◌<◌, Bool, true, false, ◌&&◌}
use libcore.Base.{Option, none, some, List, [], ◌∷◌, ◌++◌, ◌≡◌, refl, sym, ◌↔◌, inl, inr, arith, ap}
use libcore.Base.{
  ◌∙◌, drop-append_exact, ltb, leb, ◌==◌, if◌then◌else◌, length, drop, length-append, Bool-cases,
  Option-cases,
}
use libcore.Base.Utf8.{utf8, utf8_all}
use libcore.PathValidator.{is_continuation, advance, check_from, check_utf8}

-- A code point below 2^21, but for surrogates and for those from 0x110000 that have the lead byte F4.
is_accepted : ℕ → Bool
is_accepted cp =
    if leb 0xD800 cp && leb cp 0xDFFF
    then false
    else if leb 0x110000 cp && ltb cp 0x140000
    then false
    else ltb cp (2 ^ 21)

all_accepted : List ℕ → Bool
unfolding is_accepted
all_accepted [] = true
all_accepted (cp ∷ cps) = let rest = all_accepted cps in if is_accepted cp then rest else false

one : (b : ℕ) → ltb b 0x80 ≡ true → (is_accepted b ≡ true) × (utf8 b ≡ b ∷ [])
unfolding is_accepted utf8
one b h = (ground arith, ground arith)

two :
    (b c : ℕ)
    → (b / 32 == 6) ≡ true
    → ltb b 0xC2 ≡ false
    → is_continuation c ≡ true
    → (cp : ℕ) × (is_accepted cp ≡ true) × (utf8 cp ≡ b ∷ c ∷ [])
unfolding is_accepted utf8
two b c h l hc = (((b - 0xC0) * 64 + (c - 0x80)), ground arith, ground arith)

three :
    (b c d : ℕ)
    → (b / 16 == 14) ≡ true
    → is_continuation c ≡ true
    → is_continuation d ≡ true
    → (b == 0xE0 && ltb c 0xA0) ≡ false
    → (b == 0xED && leb 0xA0 c) ≡ false
    → (cp : ℕ) × (is_accepted cp ≡ true) × (utf8 cp ≡ b ∷ c ∷ d ∷ [])
unfolding is_accepted utf8
three b c d h hc hd l r =
    (((b - 0xE0) * 4096 + (c - 0x80) * 64 + (d - 0x80)), ground arith, ground arith)

four :
    (b c d e : ℕ)
    → (b / 8 == 30) ≡ true
    → is_continuation c ≡ true
    → is_continuation d ≡ true
    → is_continuation e ≡ true
    → (b == 0xF0 && ltb c 0x90) ≡ false
    → (b == 0xF4 && leb 0x90 c) ≡ false
    → (cp : ℕ) × (is_accepted cp ≡ true) × (utf8 cp ≡ b ∷ c ∷ d ∷ e ∷ [])
unfolding is_accepted utf8
four b c d e h hc hd he l r = (
  ((b - 0xF0) * 262144 + (c - 0x80) * 4096 + (d - 0x80) * 64 + (e - 0x80)),
  ground arith,
  ground arith,
)

advance-utf8 :
    (cp : ℕ) (s : List ℕ) → is_accepted cp ≡ true → advance (utf8 cp ++ s) ≡ some (length (utf8 cp))
unfolding is_accepted utf8 advance
advance-utf8 cp s h = ground arith

-- The text starts with a code point that is accepted, of `k` bytes.
StartsWith : List ℕ → ℕ → Type 0
StartsWith s k = (cp : ℕ) × (is_accepted cp ≡ true) × (s ≡ utf8 cp ++ drop k s)

from_bytes :
    (r s : List ℕ) (k : ℕ)
    → (cp : ℕ) × (is_accepted cp ≡ true) × (utf8 cp ≡ r)
    → s ≡ r ++ drop k s
    → StartsWith s k
unfolding StartsWith
from_bytes r s k (cp, ok, e) h = (cp, ok, simp e h)

advance_two :
    (b : ℕ) (s : List ℕ) (k : ℕ)
    → advance (b ∷ s) ≡ some k
    → ltb b 0x80 ≡ false
    → (b / 32 == 6) ≡ true
    → StartsWith (b ∷ s) k
unfolding advance
advance_two b [] k h l t = absurd (ground arith)
advance_two b (c ∷ s) k h l t =
    let e : k ≡ 2 = ground arith in
    from_bytes (b ∷ c ∷ []) (b ∷ c ∷ s) k (two b c t (ground arith) (ground arith)) (simp e refl)

advance_three :
    (b : ℕ) (s : List ℕ) (k : ℕ)
    → advance (b ∷ s) ≡ some k
    → (b / 16 == 14) ≡ true
    → StartsWith (b ∷ s) k
unfolding advance
advance_three b [] k h t = absurd (ground arith)
advance_three b (c ∷ []) k h t = absurd (ground arith)
advance_three b (c ∷ d ∷ s) k h t =
    let e : k ≡ 3 = ground arith in
    let by = three b c d t (ground arith) (ground arith) (ground arith) (ground arith) in
    from_bytes (b ∷ c ∷ d ∷ []) (b ∷ c ∷ d ∷ s) k by (simp e refl)

advance_four :
    (b : ℕ) (s : List ℕ) (k : ℕ)
    → advance (b ∷ s) ≡ some k
    → (b / 8 == 30) ≡ true
    → StartsWith (b ∷ s) k
unfolding advance
advance_four b [] k h t = absurd (ground arith)
advance_four b (c ∷ []) k h t = absurd (ground arith)
advance_four b (c ∷ d ∷ []) k h t = absurd (ground arith)
advance_four b (c ∷ d ∷ e ∷ s) k h t =
    let w : k ≡ 4 = ground arith in
    let by =
      four b c d e t (ground arith) (ground arith) (ground arith) (ground arith) (ground arith) in
    from_bytes (b ∷ c ∷ d ∷ e ∷ []) (b ∷ c ∷ d ∷ e ∷ s) k by (simp w refl)

advance_inverse : (b : ℕ) (s : List ℕ) (k : ℕ) → advance (b ∷ s) ≡ some k → StartsWith (b ∷ s) k
unfolding advance
advance_inverse b s k h = elim (Bool-cases (ltb b 0x80)) [
  | inl l ↦
      let e : k ≡ 1 = ground arith in
      from_bytes (b ∷ []) (b ∷ s) k (b, (one b l).0, (one b l).1) (simp e refl)
  | inr l ↦ elim (Bool-cases (b / 32 == 6)) [
    | inl t ↦ advance_two b s k h l t
    | inr t ↦ elim (Bool-cases (b / 16 == 14)) [
      | inl t3 ↦ advance_three b s k h t3
      | inr t3 ↦ advance_four b s k h (ground arith)
    ]
  ]
]

pub IsUtf8 : List ℕ → Type 0
IsUtf8 s = (cps : List ℕ) × (all_accepted cps ≡ true) × (s ≡ utf8_all cps)

IsUtf8-cons : (s : List ℕ) (k : ℕ) → StartsWith s k → IsUtf8 (drop k s) → IsUtf8 s
unfolding StartsWith IsUtf8 utf8_all all_accepted
IsUtf8-cons s k (cp, ok, e) (cps, oks, es) =
    (cp ∷ cps, simp (ok, oks) refl, e ∙ ap (λ r. utf8 cp ++ r) es)

after : ℕ → List ℕ → Option ℕ → Bool
after fuel s o = elim o [ none ↦ false | some k ↦ check_from fuel (drop k s) ]

check_from_step :
    (fuel b : ℕ) (s : List ℕ) (o : Option ℕ)
    → advance (b ∷ s) ≡ o
    → check_from (suc fuel) (b ∷ s) ≡ after fuel (b ∷ s) o
unfolding check_from after
check_from_step fuel b s o e = ap (after fuel (b ∷ s)) e

check_from_sound : (fuel : ℕ) (s : List ℕ) → check_from fuel s ≡ true → IsUtf8 s
unfolding check_from after IsUtf8 utf8_all all_accepted
check_from_sound fuel [] h = ([], refl, refl)
check_from_sound zero (b ∷ s) h = absurd cc
check_from_sound (suc fuel) (b ∷ s) h = elim (Option-cases (advance (b ∷ s))) [
  | inl e ↦ absurd (cc (sym (check_from_step fuel b s none e) ∙ h))
  | inr (k, e) ↦
      let rest = sym (check_from_step fuel b s (some k) e) ∙ h in
      IsUtf8-cons (b ∷ s) k (advance_inverse b s k e) (check_from_sound fuel (drop k (b ∷ s)) rest)
]

length-utf8 : (cp : ℕ) → 0 < length (utf8 cp)
unfolding utf8
length-utf8 cp = ground arith

step_over :
    (fuel : ℕ) (u s : List ℕ)
    → 0 < length u
    → advance (u ++ s) ≡ some (length u)
    → check_from (suc fuel) (u ++ s) ≡ check_from fuel s
unfolding after
step_over fuel [] s l h = absurd (omega arith)
step_over fuel (b ∷ r) s l h =
    check_from_step fuel b (r ++ s) (some (suc (length r))) h
    ∙ ap (check_from fuel) (drop-append_exact (length r) r s refl)

check_from-utf8 :
    (fuel cp : ℕ) (s : List ℕ)
    → is_accepted cp ≡ true
    → check_from (suc fuel) (utf8 cp ++ s) ≡ check_from fuel s
check_from-utf8 fuel cp s h = step_over fuel (utf8 cp) s (length-utf8 cp) (advance-utf8 cp s h)

check_from_complete :
    (fuel : ℕ) (cps : List ℕ)
    → all_accepted cps ≡ true
    → length (utf8_all cps) ≤ fuel
    → check_from fuel (utf8_all cps) ≡ true
unfolding all_accepted utf8_all check_from
check_from_complete fuel [] h l = refl
check_from_complete zero (cp ∷ cps) h l =
    absurd (omega (arith, length-append (utf8 cp) (utf8_all cps), length-utf8 cp))
check_from_complete (suc fuel) (cp ∷ cps) h l =
    let k = length-append (utf8 cp) (utf8_all cps) in
    let n = length-utf8 cp in
    check_from-utf8 fuel cp (utf8_all cps) (ground arith)
    ∙ check_from_complete fuel cps (ground arith) (omega (arith))

-- The check passes exactly the encodings of sequences of accepted code points: no surrogate, no overlong
-- form, no byte missing.
pub check_utf8_iff : (s : List ℕ) → (check_utf8 s ≡ true) ↔ IsUtf8 s
unfolding check_utf8 IsUtf8
check_utf8_iff s = (
  check_from_sound (length s) s,
  λ (cps, ok, e). simp e (check_from_complete (length (utf8_all cps)) cps ok (omega arith)),
)
