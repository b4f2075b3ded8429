-- ===== src/CronScheduler/Match.antt =====
-- src/cron_scheduler.c: at which times the job of an expression runs.
use libcore.Base.{
  ℕ, zero, suc, ◌+◌, ◌-◌, ◌%◌, ◌^◌, ◌<◌, ◌≤◌, min, max, Bool, true, false, not, ◌&&◌, ◌≡◌, ap, ◌∙◌,
}
use libcore.Base.{
  some, inl, inr, List, [], ◌∷◌, take, leb, if◌then◌else◌, arith, Bool-cases, Option-cases,
}
use native.Mathlib.Nat.{pow-suc}
use libcore.Base.Int.{ℤ, pos, negsuc}
use libcore.CronScheduler.Text.{atoi, tokens, after_byte}
use libcore.CronScheduler.BitSet.{set_bit, test_bit, set_bit-lt}
use libcore.CronScheduler.{
  set_every, for_loop, step_of, set_range, set_value, set_token, set_tokens,
}
use libcore.CronScheduler.{
  Form, every, stepped, parts, form_of, parse_field, CronJob, fill_job, parse_cron_expr, Tm,
  cron_matches,
}
use libcore.CronScheduler.Field.{field_says, parse_field-field_says}

pow_pos : (w : ℕ) → 0 < 2 ^ w
pow_pos zero = omega arith
pow_pos (suc w) = omega (arith, pow-suc 2 w, pow_pos w)

-- A set of values up to `hi` fits a word of `w` bits, where `hi` is below `w`.
module _ (w hi : ℕ) (fits : hi < w) where
  set_every-lt :
      (rounds i last step b : ℕ) → last ≤ hi → b < 2 ^ w → set_every rounds i last step b < 2 ^ w
  unfolding set_every
  set_every-lt zero i last step b l h = h
  set_every-lt (suc rounds) i last step b l h = elim (Bool-cases (leb i last)) [
    | inl e ↦
        let put = set_bit-lt w b i (ground arith) h in
        let rest = set_every-lt rounds (i + step) last step (set_bit b i) l put in ground arith
    | inr e ↦ ground arith
  ]

  set_range-lt : (lo : ℕ) (from to : ℤ) (b : ℕ) → b < 2 ^ w → set_range lo hi from to b < 2 ^ w
  unfolding set_range for_loop
  set_range-lt lo from (negsuc m) b h = h
  set_range-lt lo (pos n) (pos m) b h =
      set_every-lt (min m hi + 1 - max n lo) (max n lo) (min m hi) 1 b (omega arith) h
  set_range-lt lo (negsuc n) (pos m) b h =
      set_every-lt (min m hi + 1 - lo) lo (min m hi) 1 b (omega arith) h

  set_value-lt : (lo : ℕ) (n : ℤ) (b : ℕ) → b < 2 ^ w → set_value lo hi n b < 2 ^ w
  unfolding set_value
  set_value-lt lo (pos n) b h = elim (Bool-cases (leb n hi)) [
    | inl e ↦ let put = set_bit-lt w b n (ground arith) h in ground arith
    | inr e ↦ ground arith
  ]
  set_value-lt lo (negsuc n) b h = h

  set_token-lt : (lo : ℕ) (t : List ℕ) (b : ℕ) → b < 2 ^ w → set_token lo hi t b < 2 ^ w
  unfolding set_token
  set_token-lt lo t b h = elim (Option-cases (after_byte b'-' t)) [
    | inl e ↦ simp (set_token, e) (set_value-lt lo (atoi t) b h)
    | inr (rest, e) ↦ simp (set_token, e) (set_range-lt lo (atoi t) (atoi rest) b h)
  ]

  set_tokens-lt : (lo : ℕ) (ts : List (List ℕ)) (b : ℕ) → b < 2 ^ w → set_tokens lo hi ts b < 2 ^ w
  unfolding set_tokens
  set_tokens-lt lo [] b h = h
  set_tokens-lt lo (t ∷ ts) b h = set_tokens-lt lo ts (set_token lo hi t b) (set_token-lt lo t b h)

  parse_field-lt : (field : List ℕ) (lo : ℕ) → parse_field field lo hi < 2 ^ w
  unfolding parse_field for_loop
  parse_field-lt field lo = by_form (form_of field)
    where
      by_form :
          (f : Form)
          → elim f [
            | every ↦ for_loop lo hi 1 0
            | stepped s ↦ for_loop lo hi (step_of s) 0
            | parts ts ↦ set_tokens lo hi ts 0
          ]
            < 2 ^ w
      by_form every = set_every-lt (hi + 1 - lo) lo hi 1 0 (omega arith) (pow_pos w)
      by_form (stepped s) = set_every-lt (hi + 1 - lo) lo hi (step_of s) 0 (omega arith) (pow_pos w)
      by_form (parts ts) = set_tokens-lt lo ts 0 (pow_pos w)

-- A value within the limits that the field names.
unfoldable pub within : List ℕ → ℕ → ℕ → ℕ → Bool
within field lo hi v = leb lo v && leb v hi && field_says field lo v

-- The six tests, one after another.
six :
    (a b c d e f a' b' c' d' e' f' : Bool)
    → a ≡ a'
    → b ≡ b'
    → c ≡ c'
    → d ≡ d'
    → e ≡ e'
    → f ≡ f'
    → (if not a
        then false
        else if not b
        then false
        else if not c
        then false
        else if not d
        then false
        else if not e
        then false
        else if not f
        then false
        else true)
      ≡ (a' && b' && c' && d' && e' && f')
six a b c d e f a' b' c' d' e' f' p q r s t u = simp (p, q, r, s, t, u) (ground arith)

-- The job of six fields, by what `field_says` of each.
pub cron_matches-parse_cron_expr :
    (expr : List ℕ) (job : CronJob) (t : Tm) (f0 f1 f2 f3 f4 f5 : List ℕ) (more : List (List ℕ))
    → tokens (b' ' ∷ 9 ∷ []) (take 255 expr) ≡ f0 ∷ f1 ∷ f2 ∷ f3 ∷ f4 ∷ f5 ∷ more
    → (j : CronJob) × (parse_cron_expr expr job ≡ some j)
      × (cron_matches j t ≡ (
          within f0 0 59 t.tm_sec
          && within f1 0 59 t.tm_min
          && within f2 0 23 t.tm_hour
          && within f3 1 31 t.tm_mday
          && within f4 1 12 (t.tm_mon + 1)
          && within f5 0 6 t.tm_wday))
unfolding parse_cron_expr fill_job cron_matches within
cron_matches-parse_cron_expr expr job t f0 f1 f2 f3 f4 f5 more h =
    let a0 = parse_field-field_says f0 0 59 t.tm_sec in
    let a1 = parse_field-field_says f1 0 59 t.tm_min in
    let a2 = parse_field-field_says f2 0 23 t.tm_hour in
    let a3 = parse_field-field_says f3 1 31 t.tm_mday in
    let a4 = parse_field-field_says f4 1 12 (t.tm_mon + 1) in
    let a5 = parse_field-field_says f5 0 6 t.tm_wday in
    let w2 : parse_field f2 0 23 % 2 ^ 32 ≡ parse_field f2 0 23 =
      omega (arith, parse_field-lt 32 23 (omega arith) f2 0) in
    let w3 : parse_field f3 1 31 % 2 ^ 32 ≡ parse_field f3 1 31 =
      omega (arith, parse_field-lt 32 31 (omega arith) f3 1) in
    let w4 : parse_field f4 1 12 % 2 ^ 16 ≡ parse_field f4 1 12 =
      omega (arith, parse_field-lt 16 12 (omega arith) f4 1) in
    let w5 : parse_field f5 0 6 % 2 ^ 8 ≡ parse_field f5 0 6 =
      omega (arith, parse_field-lt 8 6 (omega arith) f5 0) in
    (
      _,
      ap (λ fs. fill_job fs job) h,
      six _ _ _ _ _ _ _ _ _ _ _ _ a0 a1 (ap (λ b. test_bit b t.tm_hour) w2 ∙ a2)
          (ap (λ b. test_bit b t.tm_mday) w3 ∙ a3) (ap (λ b. test_bit b (t.tm_mon + 1)) w4 ∙ a4)
          (ap (λ b. test_bit b t.tm_wday) w5 ∙ a5),
    )
