-- ===== src/CronScheduler/Expression.antt =====
-- src/cron_scheduler.c: when the job of an expression runs, by its fields as they are written.
use libcore.Base.{ℕ, ◌+◌, ◌<◌, ◌≤◌, Bool, true, false, ◌&&◌, ◌||◌, ◌≡◌, refl, ap, ◌∙◌}
use libcore.Base.{
  Option, none, some, List, [], ◌∷◌, ◌++◌, length, take, take_all, leb, ◌==◌, if◌then◌else◌, arith,
}
use libcore.CronScheduler.Text.{is_in, tokens_from, tokens}
use libcore.CronScheduler.{CronJob, fill_job, parse_cron_expr, Tm, cron_matches}
use libcore.CronScheduler.Match.{within, cron_matches-parse_cron_expr}
use libcore.CronScheduler.Written.{
  Part, Written, any_value, each_nth, listed, part_text, parts_text, field_text, names, is_numeral,
  are_parts, is_written,
}
use libcore.CronScheduler.Meaning.{
  is_free, is_free-append, tokens-token, tokens-last, is_free-number_text, is_free-part_text,
  starts-length, starts-parts_text, field_says-field_text,
}

abbrev blanks : List ℕ
blanks = b' ' ∷ 9 ∷ []

-- Fields with at least one blank or tab between them: a gap is its first byte and the others.
abbrev pub Gap : Type 0
Gap = ℕ × List ℕ

unfoldable pub are_blank : List ℕ → Bool
are_blank [] = true
are_blank (c ∷ cs) = let rest = are_blank cs in if c == b' ' || c == 9 then rest else false

unfoldable pub expr_text : Written → List (Gap × Written) → List ℕ
expr_text f [] = field_text f
expr_text f (((c, cs), g) ∷ rest) = field_text f ++ c ∷ (cs ++ expr_text g rest)

unfoldable pub are_written : Written → List (Gap × Written) → Bool
are_written f [] = is_written f
are_written f (((c, cs), g) ∷ rest) =
    let behind = are_written g rest in if is_written f && are_blank (c ∷ cs) then behind else false

unfoldable pub fields : Written → List (Gap × Written) → List Written
fields f [] = f ∷ []
fields f ((gap, g) ∷ rest) = f ∷ fields g rest

-- A value within its limits that a field names.
pub in_field : Written → ℕ → ℕ → ℕ → Bool
in_field f lo hi v = leb lo v && leb v hi && names f lo v

-- Whether the job runs at a time; `none` is no job.
unfoldable pub runs_at : List Written → Tm → Option Bool
runs_at (s ∷ m ∷ h ∷ d ∷ mon ∷ w ∷ more) t = some (
    in_field s 0 59 t.tm_sec
    && in_field m 0 59 t.tm_min
    && in_field h 0 23 t.tm_hour
    && in_field d 1 31 t.tm_mday
    && in_field mon 1 12 (t.tm_mon + 1)
    && in_field w 0 6 t.tm_wday)
runs_at _ t = none

unfoldable pub matches_of : Option CronJob → Tm → Option Bool
matches_of none t = none
matches_of (some j) t = some (cron_matches j t)

texts : List Written → List (List ℕ)
texts [] = []
texts (f ∷ fs) = field_text f ∷ texts fs

blank_digits : (d : ℕ) → d < 10 → is_in (b'0' + d) blanks ≡ false
unfolding is_in
blank_digits d h = ground arith

blank_dash : is_in b'-' blanks ≡ false
unfolding is_in
blank_dash = refl

is_free-parts_text :
    (p : Part) (ps : List Part) → are_parts p ps ≡ true → is_free blanks (parts_text p ps) ≡ true
unfolding parts_text are_parts is_free is_in
is_free-parts_text p [] h = is_free-part_text blanks blank_digits blank_dash p h
is_free-parts_text p (q ∷ qs) h =
    is_free-append blanks (part_text p) (b',' ∷ parts_text q qs)
      (is_free-part_text blanks blank_digits blank_dash p (ground arith))
      (is_free-parts_text q qs (ground arith))

is_free-field_text : (f : Written) → is_written f ≡ true → is_free blanks (field_text f) ≡ true
unfolding field_text is_written is_free is_in is_numeral
is_free-field_text any_value h = refl
is_free-field_text (each_nth n) h =
    is_free-number_text blanks blank_digits blank_dash n (ground arith)
is_free-field_text (listed p ps) h = is_free-parts_text p ps (ground arith)

length-field_text : (f : Written) → is_written f ≡ true → 0 < length (field_text f)
unfolding field_text is_written
length-field_text any_value h = omega arith
length-field_text (each_nth n) h = omega arith
length-field_text (listed p ps) h =
    starts-length (parts_text p ps) (starts-parts_text p ps (ground arith))

tokens-blank :
    (cs rest : List ℕ) → are_blank cs ≡ true → tokens blanks (cs ++ rest) ≡ tokens blanks rest
unfolding are_blank tokens tokens_from is_in
tokens-blank [] rest h = refl
tokens-blank (c ∷ cs) rest h =
    let skip : is_in c blanks ≡ true = ground arith in
    rw (tokens_from, skip) (tokens-blank cs rest (ground arith))

first_blank : (c : ℕ) (cs : List ℕ) → are_blank (c ∷ cs) ≡ true → is_in c blanks ≡ true
unfolding are_blank is_in
first_blank c cs h = ground arith

other_blanks : (c : ℕ) (cs : List ℕ) → are_blank (c ∷ cs) ≡ true → are_blank cs ≡ true
unfolding are_blank
other_blanks c cs h = ground arith

tokens-expr_text :
    (f : Written) (rest : List (Gap × Written))
    → are_written f rest ≡ true
    → tokens blanks (expr_text f rest) ≡ texts (fields f rest)
unfolding expr_text are_written fields texts
tokens-expr_text f [] h =
    tokens-last blanks (field_text f) (length-field_text f h) (is_free-field_text f h)
tokens-expr_text f (((c, cs), g) ∷ rest) h =
    let ok : is_written f ≡ true = ground arith in
    let gap : are_blank (c ∷ cs) ≡ true = ground arith in
    let behind : are_written g rest ≡ true = ground arith in
    tokens-token blanks (field_text f) c (cs ++ expr_text g rest) (length-field_text f ok)
      (is_free-field_text f ok) (first_blank c cs gap)
    ∙ ap (λ ts. field_text f ∷ ts)
        (tokens-blank cs (expr_text g rest) (other_blanks c cs gap)
          ∙ tokens-expr_text g rest behind)

unfoldable all_written : List Written → Bool
all_written [] = true
all_written (f ∷ fs) = let rest = all_written fs in if is_written f then rest else false

all_written-fields :
    (f : Written) (rest : List (Gap × Written))
    → are_written f rest ≡ true
    → all_written (fields f rest) ≡ true
unfolding all_written fields are_written
all_written-fields f [] h = ground arith
all_written-fields f ((gap, g) ∷ rest) h =
    let ih = all_written-fields g rest (ground arith) in ground arith

within-field_text :
    (f : Written) (lo hi v : ℕ)
    → is_written f ≡ true
    → within (field_text f) lo hi v ≡ in_field f lo hi v
unfolding within in_field
within-field_text f lo hi v h = ap (λ b. leb lo v && leb v hi && b) (field_says-field_text f lo v h)

-- The job that a list of fields makes.
fill_job-texts :
    (expr : List ℕ) (fs : List Written) (job : CronJob) (t : Tm)
    → tokens blanks (take 255 expr) ≡ texts fs
    → all_written fs ≡ true
    → matches_of (parse_cron_expr expr job) t ≡ runs_at fs t
unfolding texts all_written runs_at matches_of parse_cron_expr fill_job
fill_job-texts expr [] job t e h = ap (λ ts. matches_of (fill_job ts job) t) e
fill_job-texts expr (_ ∷ []) job t e h = ap (λ ts. matches_of (fill_job ts job) t) e
fill_job-texts expr (_ ∷ _ ∷ []) job t e h = ap (λ ts. matches_of (fill_job ts job) t) e
fill_job-texts expr (_ ∷ _ ∷ _ ∷ []) job t e h = ap (λ ts. matches_of (fill_job ts job) t) e
fill_job-texts expr (_ ∷ _ ∷ _ ∷ _ ∷ []) job t e h = ap (λ ts. matches_of (fill_job ts job) t) e
fill_job-texts expr (_ ∷ _ ∷ _ ∷ _ ∷ _ ∷ []) job t e h = ap (λ ts. matches_of (fill_job ts job) t) e
fill_job-texts expr (f0 ∷ f1 ∷ f2 ∷ f3 ∷ f4 ∷ f5 ∷ more) job t e h =
    let (j, made, runs) = cron_matches-parse_cron_expr expr job t _ _ _ _ _ _ (texts more) e in
    let w0 = within-field_text f0 0 59 t.tm_sec (ground arith) in
    let w1 = within-field_text f1 0 59 t.tm_min (ground arith) in
    let w2 = within-field_text f2 0 23 t.tm_hour (ground arith) in
    let w3 = within-field_text f3 1 31 t.tm_mday (ground arith) in
    let w4 = within-field_text f4 1 12 (t.tm_mon + 1) (ground arith) in
    let w5 = within-field_text f5 0 6 t.tm_wday (ground arith) in
    ap (λ o. matches_of o t) made ∙ ap some (runs ∙ simp (w0, w1, w2, w3, w4, w5) refl)

-- The job of an expression of fields with blanks or tabs between them, of 255 bytes at most, runs at exactly
-- the times whose second, minute, hour, day, month and weekday are each named by its field and within the
-- limits of that; what follows six fields has no effect, and with fewer there is no job. The fields are as
-- for `parse_field`: numbers below 2^31 - 60, lists of at most 127 bytes.
pub cron_matches-expr_text :
    (f : Written) (rest : List (Gap × Written)) (job : CronJob) (t : Tm)
    → are_written f rest ≡ true
    → length (expr_text f rest) ≤ 255
    → matches_of (parse_cron_expr (expr_text f rest) job) t ≡ runs_at (fields f rest) t
cron_matches-expr_text f rest job t h n =
    fill_job-texts (expr_text f rest) (fields f rest) job t
      (ap (tokens blanks) (take_all 255 (expr_text f rest) n) ∙ tokens-expr_text f rest h)
      (all_written-fields f rest h)
