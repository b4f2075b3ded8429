-- ===== src/CronScheduler/Meaning.antt =====
-- src/cron_scheduler.c: what `parse_field` makes of a field as it is written.
use libcore.Base.{ℕ, ◌+◌, ◌-◌, ◌%◌, ◌<◌, ◌≤◌, max, Bool, true, false, ◌&&◌, ◌≡◌, refl, sym, ap, ◌∙◌}
use libcore.Base.{
  inl, inr, List, [], ◌∷◌, ◌++◌, append-nil, append_assoc, length, take_all, ltb, leb, ◌==◌,
  if◌then◌else◌, arith, Bool-cases,
}
use libcore.Base.Int.{pos, negsuc}
use libcore.CronScheduler.Text.{is_digit, is_in, tokens_from, tokens}
use libcore.CronScheduler.BitSet.{test_bit}
use libcore.CronScheduler.{parts, form_of, parse_field, step_of}
use libcore.CronScheduler.Field.{field_says, some_says, parse_field-field_says}
use libcore.CronScheduler.Written.{
  Part, number, span, Written, any_value, each_nth, listed, value, number_text, part_text,
  parts_text, field_text, parts_name, names, are_digits, is_numeral, is_part, are_parts, is_written,
  atoi-alone, token_says-part_text,
}

abbrev comma : List ℕ
comma = b',' ∷ []

-- No byte of the text is one of the delimiters.
unfoldable pub is_free : List ℕ → List ℕ → Bool
is_free delims [] = true
is_free delims (c ∷ cs) = let rest = is_free delims cs in if is_in c delims then false else rest

pub is_free-append :
    (delims s t : List ℕ)
    → is_free delims s ≡ true
    → is_free delims t ≡ true
    → is_free delims (s ++ t) ≡ true
unfolding is_free
is_free-append delims [] t h k = k
is_free-append delims (c ∷ cs) t h k =
    let ih = is_free-append delims cs t (ground arith) k in ground arith

tokens_from-is_free :
    (delims begun t rest : List ℕ)
    → is_free delims t ≡ true
    → tokens_from delims begun (t ++ rest) ≡ tokens_from delims (begun ++ t) rest
unfolding is_free tokens_from
tokens_from-is_free delims begun [] rest h =
    ap (λ b. tokens_from delims b rest) (sym (append-nil begun))
tokens_from-is_free delims begun (c ∷ cs) rest h =
    let out : is_in c delims ≡ false = ground arith in
    rw (tokens_from, out)
      (tokens_from-is_free delims (begun ++ c ∷ []) cs rest (ground arith)
        ∙ ap (λ b. tokens_from delims b rest) (append_assoc begun (c ∷ []) cs))

-- A token with a delimiter behind it is given, and so is the last one.
pub tokens-token :
    (delims t : List ℕ) (d : ℕ) (rest : List ℕ)
    → 0 < length t
    → is_free delims t ≡ true
    → is_in d delims ≡ true
    → tokens delims (t ++ d ∷ rest) ≡ t ∷ tokens delims rest
unfolding tokens tokens_from
tokens-token delims [] d rest n h k = absurd (omega arith)
tokens-token delims (c ∷ cs) d rest n h k =
    tokens_from-is_free delims [] (c ∷ cs) (d ∷ rest) h ∙ simp (tokens_from, k) refl

pub tokens-last :
    (delims t : List ℕ) → 0 < length t → is_free delims t ≡ true → tokens delims t ≡ t ∷ []
unfolding tokens tokens_from
tokens-last delims [] n h = absurd (omega arith)
tokens-last delims (c ∷ cs) n h =
    ap (tokens_from delims []) (sym (append-nil (c ∷ cs)))
    ∙ tokens_from-is_free delims [] (c ∷ cs) [] h

-- Delimiters that no digit is, and no dash.
module _ (delims : List ℕ) (digits : (d : ℕ) → d < 10 → is_in (b'0' + d) delims ≡ false)
    (dash : is_in b'-' delims ≡ false) where
  pub is_free-number_text :
      (ds : List ℕ) → are_digits ds ≡ true → is_free delims (number_text ds) ≡ true
  unfolding is_free number_text are_digits
  is_free-number_text [] h = refl
  is_free-number_text (d ∷ ds) h =
      let ih = is_free-number_text ds (ground arith) in
      let out = digits d (ground arith) in simp (out) ih

  pub is_free-part_text : (p : Part) → is_part p ≡ true → is_free delims (part_text p) ≡ true
  unfolding part_text is_part is_numeral is_free
  is_free-part_text (number n) h = is_free-number_text n (ground arith)
  is_free-part_text (span from to) h =
      let behind = is_free-number_text to (ground arith) in
      is_free-append delims (number_text from) (b'-' ∷ number_text to)
        (is_free-number_text from (ground arith)) (simp (dash) behind)

-- A text that starts with a digit.
pub starts_with_digit : List ℕ → Bool
starts_with_digit [] = false
starts_with_digit (c ∷ cs) = is_digit c

starts-number_text :
    (ds rest : List ℕ) → is_numeral ds ≡ true → starts_with_digit (number_text ds ++ rest) ≡ true
unfolding number_text is_numeral are_digits starts_with_digit is_digit
starts-number_text [] rest h = absurd (ground arith)
starts-number_text (d ∷ ds) rest h = let low : ltb d 10 ≡ true = ground arith in ground arith

starts-part_text :
    (p : Part) (rest : List ℕ) → is_part p ≡ true → starts_with_digit (part_text p ++ rest) ≡ true
unfolding part_text is_part
starts-part_text (number n) rest h = starts-number_text n rest h
starts-part_text (span from to) rest h =
    ap starts_with_digit (append_assoc (number_text from) (b'-' ∷ number_text to) rest)
    ∙ starts-number_text from (b'-' ∷ (number_text to ++ rest)) (ground arith)

pub starts-parts_text :
    (p : Part) (ps : List Part) → are_parts p ps ≡ true → starts_with_digit (parts_text p ps) ≡ true
unfolding parts_text are_parts
starts-parts_text p [] h =
    ap starts_with_digit (sym (append-nil (part_text p))) ∙ starts-part_text p [] h
starts-parts_text p (q ∷ qs) h = starts-part_text p (b',' ∷ parts_text q qs) (ground arith)

pub starts-length : (s : List ℕ) → starts_with_digit s ≡ true → 0 < length s
unfolding starts_with_digit
starts-length [] h = absurd cc
starts-length (c ∷ cs) h = omega arith

length-part_text : (p : Part) → is_part p ≡ true → 0 < length (part_text p)
length-part_text p h =
    starts-length (part_text p)
      (ap starts_with_digit (sym (append-nil (part_text p))) ∙ starts-part_text p [] h)

part_texts : Part → List Part → List (List ℕ)
part_texts p [] = part_text p ∷ []
part_texts p (q ∷ qs) = part_text p ∷ part_texts q qs

comma_digits : (d : ℕ) → d < 10 → is_in (b'0' + d) comma ≡ false
unfolding is_in
comma_digits d h = ground arith

comma_dash : is_in b'-' comma ≡ false
unfolding is_in
comma_dash = refl

tokens-parts_text :
    (p : Part) (ps : List Part)
    → are_parts p ps ≡ true
    → tokens comma (parts_text p ps) ≡ part_texts p ps
unfolding parts_text are_parts part_texts is_in
tokens-parts_text p [] h =
    tokens-last comma (part_text p) (length-part_text p h)
      (is_free-part_text comma comma_digits comma_dash p h)
tokens-parts_text p (q ∷ qs) h =
    let first : is_part p ≡ true = ground arith in
    tokens-token comma (part_text p) b',' (parts_text q qs) (length-part_text p first)
      (is_free-part_text comma comma_digits comma_dash p first) refl
    ∙ ap (λ ts. part_text p ∷ ts) (tokens-parts_text q qs (ground arith))

some_says-part_texts :
    (p : Part) (ps : List Part) (v : ℕ)
    → are_parts p ps ≡ true
    → some_says (part_texts p ps) v ≡ parts_name p ps v
unfolding some_says part_texts parts_name are_parts
some_says-part_texts p [] v h = let one = token_says-part_text p v h in ground arith
some_says-part_texts p (q ∷ qs) v h =
    let one = token_says-part_text p v (ground arith) in
    let ih = some_says-part_texts q qs v (ground arith) in ground arith

form_of-list :
    (s : List ℕ) → starts_with_digit s ≡ true → length s ≤ 127 → form_of s ≡ parts (tokens comma s)
unfolding form_of starts_with_digit is_digit
form_of-list [] h n = absurd cc
form_of-list (c ∷ []) h n =
    let star : (c == b'*') ≡ false = ground arith in simp (form_of, star) refl
form_of-list (c ∷ d ∷ rest) h n =
    let star : (c == b'*') ≡ false = ground arith in
    simp (form_of, star) (ap (λ s. parts (tokens comma s)) (take_all 127 (c ∷ d ∷ rest) n))

every_nth :
    (n : List ℕ) (lo v : ℕ)
    → (v - lo) % max (value n) 1 == 0 ≡ (if value n == 0 then true else (v - lo) % value n == 0)
every_nth n lo v = elim (Bool-cases (value n == 0)) [
  | inl e ↦
      let least : max (value n) 1 ≡ 1 = ground arith in
      simp (e, least) (let all : (v - lo) % 1 ≡ 0 = omega arith in simp all refl)
  | inr e ↦ let same : max (value n) 1 ≡ value n = ground arith in simp (e, same) refl
]

step_of-number_text : (n : List ℕ) → is_numeral n ≡ true → step_of (number_text n) ≡ max (value n) 1
unfolding step_of
step_of-number_text n h = ap (λ z. elim z [ pos m ↦ max m 1 | negsuc m ↦ 1 ]) (atoi-alone n h)

pub field_says-field_text :
    (f : Written) (lo v : ℕ) → is_written f ≡ true → field_says (field_text f) lo v ≡ names f lo v
unfolding field_says field_text names is_written form_of
field_says-field_text any_value lo v h = refl
field_says-field_text (each_nth n) lo v h =
    ap (λ k. (v - lo) % k == 0) (step_of-number_text n h) ∙ every_nth n lo v
field_says-field_text (listed p ps) lo v h =
    let ok : are_parts p ps ≡ true = ground arith in
    let form =
      form_of-list (parts_text p ps) (starts-parts_text p ps ok) (ground arith)
      ∙ ap parts (tokens-parts_text p ps ok) in
    simp (field_says, form) (some_says-part_texts p ps v ok)

-- The set of a field has exactly the values within its limits that the field as it is written names: all for
-- `*`, every n-th from the least on for `*/n` (all where n is 0), and for a list those that are one of its
-- numbers or lie in one of its spans. The limits are below 60, the numbers are at least one digit each and
-- stay below 2^31 - 60, and a list has at most 127 bytes.
pub parse_field-field_text :
    (f : Written) (lo hi v : ℕ)
    → is_written f ≡ true
    → hi < 60
    → test_bit (parse_field (field_text f) lo hi) v ≡ (leb lo v && leb v hi && names f lo v)
parse_field-field_text f lo hi v h small =
    parse_field-field_says (field_text f) lo hi v
    ∙ ap (λ b. leb lo v && leb v hi && b) (field_says-field_text f lo v h)
