-- ===== src/CronScheduler/Field.antt =====
-- src/cron_scheduler.c: which values the set of a field has.
use libcore.Base.{
  ℕ, zero, suc, ◌+◌, ◌-◌, ◌%◌, ◌<◌, ◌≤◌, min, max, Bool, true, false, ◌&&◌, ◌||◌, ◌≡◌, ap, ◌∙◌,
}
use libcore.Base.{
  none, some, inl, inr, List, [], ◌∷◌, ltb, leb, ◌==◌, arith, Bool-cases, Option-cases,
}
use libcore.Base.Int.{ℤ, pos, negsuc}
use libcore.CronScheduler.Text.{atoi, after_byte}
use libcore.CronScheduler.BitSet.{set_bit, test_bit, test_bit-set_bit, test_bit-zero}
use libcore.CronScheduler.{
  set_every, for_loop, step_of, set_range, set_value, set_token, set_tokens,
}
use libcore.CronScheduler.{Form, every, stepped, parts, form_of, parse_field}
use native.Mathlib.Nat.{mod-eq-sub-mod, mod-eq_of_lt}

-- A value is one of `from`, `from + step`, and so on.
pub is_hit : ℕ → ℕ → ℕ → Bool
is_hit from step v = leb from v && (v - from) % step == 0

is_hit-first : (i step v : ℕ) → 1 ≤ step → is_hit i step v ≡ (i == v || is_hit (i + step) step v)
unfolding is_hit
is_hit-first i step v h = elim (Bool-cases (ltb v (i + step))) [
  | inl e ↦ elim (Bool-cases (leb i v)) [
    | inl l ↦ let small : (v - i) % step ≡ v - i = mod-eq_of_lt (ground arith) in ground arith
    | inr l ↦ ground arith
  ]
  | inr e ↦
      let down : (v - i) % step ≡ (v - i - step) % step = mod-eq-sub-mod (ground arith) in
      let same : v - i - step ≡ v - (i + step) = omega arith in
      let moved = down ∙ ap (λ x. x % step) same in ground arith
]

test_bit-set_every :
    (rounds i last step b v : ℕ)
    → 1 ≤ step
    → last < i + rounds
    → test_bit (set_every rounds i last step b) v
      ≡ (test_bit b v || (leb v last && is_hit i step v))
unfolding set_every is_hit
test_bit-set_every zero i last step b v h r =
    let out : (leb v last && is_hit i step v) ≡ false = ground arith in ground arith
test_bit-set_every (suc rounds) i last step b v h r =
    let rest = test_bit-set_every rounds (i + step) last step (set_bit b i) v h (omega arith) in
    let put = test_bit-set_bit b i v in let first = is_hit-first i step v h in ground arith

for_loop-test :
    (i last step b v : ℕ)
    → 1 ≤ step
    → test_bit (for_loop i last step b) v ≡ (test_bit b v || (leb v last && is_hit i step v))
unfolding for_loop
for_loop-test i last step b v h = test_bit-set_every (last + 1 - i) i last step b v h (omega arith)

-- A step of one reaches every value.
is_hit-one : (i v : ℕ) → is_hit i 1 v ≡ leb i v
unfolding is_hit
is_hit-one i v = ground arith

-- What a part of a list says of a value within the limits: it lies in the range, or is the number.
unfoldable pub in_range : ℤ → ℤ → ℕ → Bool
in_range from (negsuc m) v = false
in_range (pos n) (pos m) v = leb n v && leb v m
in_range (negsuc n) (pos m) v = leb v m

unfoldable pub is_number : ℤ → ℕ → Bool
is_number (pos n) v = n == v
is_number (negsuc n) v = false

unfoldable pub token_says : List ℕ → ℕ → Bool
token_says token v = elim (after_byte b'-' token) [
  | some rest ↦ in_range (atoi token) (atoi rest) v
  | none ↦ is_number (atoi token) v
]

unfoldable pub some_says : List (List ℕ) → ℕ → Bool
some_says [] v = false
some_says (t ∷ ts) v = token_says t v || some_says ts v

-- What a field says of a value, where `min_val` is the least there is.
unfoldable pub field_says : List ℕ → ℕ → ℕ → Bool
field_says field min_val v = elim (form_of field) [
  | every ↦ true
  | stepped s ↦ (v - min_val) % step_of s == 0
  | parts ts ↦ some_says ts v
]

set_range-test :
    (lo hi : ℕ) (from to : ℤ) (b v : ℕ)
    → test_bit (set_range lo hi from to b) v
      ≡ (test_bit b v || (leb lo v && leb v hi && in_range from to v))
unfolding set_range in_range
set_range-test lo hi from (negsuc m) b v = ground arith
set_range-test lo hi (pos n) (pos m) b v =
    let t = for_loop-test (max n lo) (min m hi) 1 b v (omega arith) in
    let one = is_hit-one (max n lo) v in ground arith
set_range-test lo hi (negsuc n) (pos m) b v =
    let t = for_loop-test lo (min m hi) 1 b v (omega arith) in
    let one = is_hit-one lo v in ground arith

set_value-test :
    (lo hi : ℕ) (n : ℤ) (b v : ℕ)
    → test_bit (set_value lo hi n b) v ≡ (test_bit b v || (leb lo v && leb v hi && is_number n v))
unfolding set_value is_number
set_value-test lo hi (pos n) b v = let put = test_bit-set_bit b n v in ground arith
set_value-test lo hi (negsuc n) b v = ground arith

set_token-test :
    (lo hi : ℕ) (t : List ℕ) (b v : ℕ)
    → test_bit (set_token lo hi t b) v ≡ (test_bit b v || (leb lo v && leb v hi && token_says t v))
unfolding set_token token_says
set_token-test lo hi t b v = elim (Option-cases (after_byte b'-' t)) [
  | inl e ↦ simp (set_token, token_says, e) (set_value-test lo hi (atoi t) b v)
  | inr (rest, e) ↦ simp (set_token, token_says, e) (set_range-test lo hi (atoi t) (atoi rest) b v)
]

set_tokens-test :
    (lo hi : ℕ) (ts : List (List ℕ)) (b v : ℕ)
    → test_bit (set_tokens lo hi ts b) v
      ≡ (test_bit b v || (leb lo v && leb v hi && some_says ts v))
unfolding set_tokens some_says
set_tokens-test lo hi [] b v = ground arith
set_tokens-test lo hi (t ∷ ts) b v =
    let one = set_token-test lo hi t b v in
    let rest = set_tokens-test lo hi ts (set_token lo hi t b) v in ground arith

step_of-pos : (s : List ℕ) → 1 ≤ step_of s
unfolding step_of
step_of-pos s = positive (atoi s)
  where
    positive : (z : ℤ) → 1 ≤ elim z [ pos n ↦ max n 1 | negsuc n ↦ 1 ]
    positive (pos n) = omega arith
    positive (negsuc n) = omega arith

-- The set of a field, by the forms that the code tells apart.
pub parse_field-field_says :
    (field : List ℕ) (lo hi v : ℕ)
    → test_bit (parse_field field lo hi) v ≡ (leb lo v && leb v hi && field_says field lo v)
unfolding parse_field field_says is_hit
parse_field-field_says field lo hi v = by_form (form_of field)
  where
    by_form :
        (f : Form)
        → test_bit
            (elim f [
              | every ↦ for_loop lo hi 1 0
              | stepped s ↦ for_loop lo hi (step_of s) 0
              | parts ts ↦ set_tokens lo hi ts 0
            ])
            v
          ≡ (leb lo v && leb v hi && elim f [
            | every ↦ true
            | stepped s ↦ (v - lo) % step_of s == 0
            | parts ts ↦ some_says ts v
          ])
    by_form every =
        let z = test_bit-zero v in
        let t = for_loop-test lo hi 1 0 v (omega arith) in let one = is_hit-one lo v in ground arith
    by_form (stepped s) =
        let z = test_bit-zero v in
        let t = for_loop-test lo hi (step_of s) 0 v (step_of-pos s) in ground arith
    by_form (parts ts) =
        let z = test_bit-zero v in let t = set_tokens-test lo hi ts 0 v in ground arith
