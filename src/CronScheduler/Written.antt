-- ===== src/CronScheduler/Written.antt =====
-- src/cron_scheduler.c: fields as they are written, and what they mean. `atoi` is given numbers that are
-- `int`s, and a step that can be added to a value of a field; beyond these C does not say what happens.
use libcore.Base.{
  ℕ, ◌+◌, ◌-◌, ◌*◌, ◌%◌, ◌^◌, Bool, true, false, not, ◌&&◌, ◌||◌, ◌≡◌, refl, sym, ap, ◌∙◌,
}
use libcore.Base.{
  none, some, List, [], ◌∷◌, ◌++◌, append-nil, length, ltb, leb, ◌==◌, if◌then◌else◌, arith,
}
use libcore.Base.Int.{pos}
use libcore.CronScheduler.Text.{is_digit, is_space, digits_value, atoi, after_byte}
use libcore.CronScheduler.Field.{token_says, in_range, is_number}

-- A number is its digits, and a part of a list a number or a span of them.
pub data Part : Type 0 where
  number : List ℕ → Part
  span : List ℕ → List ℕ → Part

-- `*`, `*/n`, or parts with commas between them.
pub data Written : Type 0 where
  any_value : Written
  each_nth : List ℕ → Written
  listed : Part → List Part → Written

unfoldable pub value_from : ℕ → List ℕ → ℕ
value_from acc [] = acc
value_from acc (d ∷ ds) = value_from (acc * 10 + d) ds

abbrev pub value : List ℕ → ℕ
value ds = value_from 0 ds

unfoldable pub number_text : List ℕ → List ℕ
number_text [] = []
number_text (d ∷ ds) = (b'0' + d) ∷ number_text ds

unfoldable pub part_text : Part → List ℕ
part_text (number n) = number_text n
part_text (span from to) = number_text from ++ b'-' ∷ number_text to

unfoldable pub parts_text : Part → List Part → List ℕ
parts_text p [] = part_text p
parts_text p (q ∷ qs) = part_text p ++ b',' ∷ parts_text q qs

unfoldable pub field_text : Written → List ℕ
field_text any_value = b'*' ∷ []
field_text (each_nth n) = b'*' ∷ b'/' ∷ number_text n
field_text (listed p ps) = parts_text p ps

-- The values of a part, and of a field whose least value is `lo`.
unfoldable pub part_names : Part → ℕ → Bool
part_names (number n) v = value n == v
part_names (span from to) v = leb (value from) v && leb v (value to)

unfoldable pub parts_name : Part → List Part → ℕ → Bool
parts_name p [] v = part_names p v
parts_name p (q ∷ qs) v = part_names p v || parts_name q qs v

unfoldable pub names : Written → ℕ → ℕ → Bool
names any_value lo v = true
names (each_nth n) lo v = if value n == 0 then true else (v - lo) % value n == 0
names (listed p ps) lo v = parts_name p ps v

unfoldable pub are_digits : List ℕ → Bool
are_digits [] = true
are_digits (d ∷ ds) = let rest = are_digits ds in if ltb d 10 then rest else false

-- A number of at least one digit that is an `int`, also when a value of a field is added.
unfoldable pub is_numeral : List ℕ → Bool
is_numeral ds = are_digits ds && ltb 0 (length ds) && ltb (value ds) (2 ^ 31 - 60)

unfoldable pub is_part : Part → Bool
is_part (number n) = is_numeral n
is_part (span from to) = is_numeral from && is_numeral to

unfoldable pub are_parts : Part → List Part → Bool
are_parts p [] = is_part p
are_parts p (q ∷ qs) = let rest = are_parts q qs in if is_part p then rest else false

-- A list fits the buffer of the field, which has 127 bytes and a NUL.
unfoldable pub is_written : Written → Bool
is_written any_value = true
is_written (each_nth n) = is_numeral n
is_written (listed p ps) = are_parts p ps && leb (length (parts_text p ps)) 127

-- A text where a number ends.
stops : List ℕ → Bool
stops [] = true
stops (c ∷ cs) = not (is_digit c)

digits_value-number_text :
    (ds rest : List ℕ) (acc : ℕ)
    → are_digits ds ≡ true
    → stops rest ≡ true
    → digits_value (number_text ds ++ rest) acc ≡ value_from acc ds
unfolding digits_value number_text value_from are_digits stops is_digit
digits_value-number_text [] [] acc h s = refl
digits_value-number_text [] (c ∷ cs) acc h s = ground arith
digits_value-number_text (d ∷ ds) rest acc h s =
    let ih = digits_value-number_text ds rest (acc * 10 + d) (ground arith) s in
    let digit : is_digit (b'0' + d) ≡ true = ground arith in
    let same : acc * 10 + (b'0' + d - b'0') ≡ acc * 10 + d = omega arith in
    simp (digits_value, digit, same) ih

atoi-number_text :
    (ds rest : List ℕ)
    → is_numeral ds ≡ true
    → stops rest ≡ true
    → atoi (number_text ds ++ rest) ≡ pos (value ds)
unfolding atoi number_text is_numeral are_digits is_space
atoi-number_text [] rest h s = absurd (ground arith)
atoi-number_text (d ∷ ds) rest h s =
    let low : ltb d 10 ≡ true = ground arith in
    let all : are_digits (d ∷ ds) ≡ true = ground arith in
    let read = digits_value-number_text (d ∷ ds) rest 0 all s in
    let blank : is_space (b'0' + d) ≡ false = ground arith in
    let minus : (b'0' + d == b'-') ≡ false = ground arith in
    let plus : (b'0' + d == b'+') ≡ false = ground arith in
    simp (atoi, blank, minus, plus) (ap pos read)

after_byte-number_text :
    (ds : List ℕ) → are_digits ds ≡ true → after_byte b'-' (number_text ds) ≡ none
unfolding after_byte number_text are_digits
after_byte-number_text [] h = refl
after_byte-number_text (d ∷ ds) h =
    let ih = after_byte-number_text ds (ground arith) in
    let low : ltb d 10 ≡ true = ground arith in
    let minus : (b'0' + d == b'-') ≡ false = ground arith in simp (minus) ih

after_byte-span :
    (ds rest : List ℕ)
    → are_digits ds ≡ true
    → after_byte b'-' (number_text ds ++ b'-' ∷ rest) ≡ some rest
unfolding after_byte number_text are_digits
after_byte-span [] rest h = refl
after_byte-span (d ∷ ds) rest h =
    let ih = after_byte-span ds rest (ground arith) in
    let low : ltb d 10 ≡ true = ground arith in
    let minus : (b'0' + d == b'-') ≡ false = ground arith in simp (minus) ih

digits_of : (ds : List ℕ) → is_numeral ds ≡ true → are_digits ds ≡ true
unfolding is_numeral
digits_of ds h = ground arith

pub atoi-alone : (ds : List ℕ) → is_numeral ds ≡ true → atoi (number_text ds) ≡ pos (value ds)
unfolding stops
atoi-alone ds h = ap atoi (sym (append-nil (number_text ds))) ∙ atoi-number_text ds [] h refl

pub token_says-part_text :
    (p : Part) (v : ℕ) → is_part p ≡ true → token_says (part_text p) v ≡ part_names p v
unfolding token_says part_text part_names is_part in_range is_number stops is_digit
token_says-part_text (number n) v h =
    let alone = after_byte-number_text n (digits_of n h) in
    let read = atoi-alone n h in simp (token_says, alone, read) refl
token_says-part_text (span from to) v h =
    let first : is_numeral from ≡ true = ground arith in
    let second : is_numeral to ≡ true = ground arith in
    let cut = after_byte-span from (number_text to) (digits_of from first) in
    let low = atoi-number_text from (b'-' ∷ number_text to) first refl in
    let high = atoi-alone to second in simp (token_says, cut, low, high) refl
