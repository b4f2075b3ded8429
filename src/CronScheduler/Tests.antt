-- ===== src/CronScheduler/Tests.antt =====
-- Tests of src/cron_scheduler.c, and its theorems at concrete inputs.
use libcore.Base.{ℕ, ◌+◌, ◌^◌, leb, ◌&&◌, take, List, ◌∷◌, [], ◌≡◌, refl, arith}
use libcore.CronScheduler.Text.{
  atoi, tokens, tokens_from, is_in, after_byte, is_space, is_digit, digits_value,
}
use libcore.CronScheduler.BitSet.{set_bit, test_bit}
use libcore.CronScheduler.{
  set_every, for_loop, step_of, set_range, set_value, set_token, set_tokens, form_of, parse_field,
}
use libcore.CronScheduler.{CronJob, CronScheduler, Tm, parse_cron_expr, remove_cron}
use libcore.CronScheduler.Written.{
  Written, any_value, each_nth, listed, number, span, names, field_text, is_written, are_parts,
  is_part, is_numeral, are_digits, parts_text, part_text, number_text, value_from,
}
use libcore.CronScheduler.Meaning.{parse_field-field_text}
use libcore.CronScheduler.Expression.{
  Gap, expr_text, are_written, are_blank, fields, runs_at, matches_of, cron_matches-expr_text,
}
use libcore.CronScheduler.Jobs.{IsValid}
use libcore.CronScheduler.Removal.{Removed, remove_cron-Removed}

-- "*/15"
abbrev quarters : List ℕ
quarters = b'*' ∷ b'/' ∷ b'1' ∷ b'5' ∷ []

-- "1-3,7"
abbrev some_days : List ℕ
some_days = b'1' ∷ b'-' ∷ b'3' ∷ b',' ∷ b'7' ∷ []

quarters-parse_field : parse_field quarters 0 59 ≡ 2 ^ 0 + 2 ^ 15 + 2 ^ 30 + 2 ^ 45
unfolding parse_field form_of for_loop set_every step_of set_bit atoi is_space is_digit digits_value
quarters-parse_field = refl

some_days-parse_field : parse_field some_days 1 31 ≡ 2 + 4 + 8 + 128
unfolding parse_field form_of for_loop set_every set_tokens set_token set_range set_value tokens
    tokens_from is_in after_byte set_bit atoi is_space is_digit digits_value
some_days-parse_field = refl

-- "0 */15 * 1-3,7 * *"
abbrev expr : List ℕ
expr =
    b'0' ∷ b' ' ∷ b'*' ∷ b'/' ∷ b'1' ∷ b'5' ∷ b' ' ∷ b'*' ∷ b' ' ∷ b'1' ∷ b'-' ∷ b'3' ∷ b',' ∷ b'7'
    ∷ b' ' ∷ b'*' ∷ b' ' ∷ b'*' ∷ []

expr-tokens :
    tokens (b' ' ∷ 9 ∷ []) (take 255 expr)
    ≡ (b'0' ∷ []) ∷ quarters ∷ (b'*' ∷ []) ∷ some_days ∷ (b'*' ∷ []) ∷ (b'*' ∷ []) ∷ []
unfolding tokens tokens_from is_in
expr-tokens = refl

abbrev blank : CronJob
blank = record {
  name = b'a' ∷ [];
  seconds = 0;
  minutes = 0;
  hours = 0;
  days = 0;
  months = 0;
  weekdays = 0;
  cb = 1;
  ud = 2;
}

abbrev noon : Tm
noon = record { tm_sec = 0; tm_min = 30; tm_hour = 12; tm_mday = 7; tm_mon = 10; tm_wday = 3 }

abbrev table : CronScheduler
table = record { jobs = blank ∷ []; job_capacity = 16 }

table-IsValid : IsValid table
unfolding IsValid
table-IsValid = (omega arith, omega arith)

-- "1-3,7" and "*/15" as they are written.
abbrev written_days : Written
written_days = listed (span (1 ∷ []) (3 ∷ [])) (number (7 ∷ []) ∷ [])

abbrev written_quarters : Written
written_quarters = each_nth (1 ∷ 5 ∷ [])

parse_field-field_text_example :
    test_bit (parse_field (field_text written_days) 1 31) 7
    ≡ (leb 1 7 && leb 7 31 && names written_days 1 7)
unfolding is_written are_parts is_part is_numeral are_digits parts_text part_text number_text
    value_from
parse_field-field_text_example = parse_field-field_text written_days 1 31 7 refl (omega arith)

abbrev blank_gap : Gap
blank_gap = (b' ', [])

abbrev more_fields : List (Gap × Written)
more_fields =
    (blank_gap, written_quarters)
    ∷ (blank_gap, any_value)
    ∷ (blank_gap, written_days)
    ∷ (blank_gap, any_value)
    ∷ (blank_gap, any_value)
    ∷ []

cron_matches-expr_text_example :
    matches_of (parse_cron_expr (expr_text any_value more_fields) blank) noon
    ≡ runs_at (fields any_value more_fields) noon
unfolding is_written are_parts is_part is_numeral are_digits parts_text part_text number_text
    value_from are_written are_blank expr_text field_text
cron_matches-expr_text_example =
    cron_matches-expr_text any_value more_fields blank noon refl (omega arith)

remove_cron-Removed_example :
    Removed table (b'a' ∷ []) (remove_cron table (b'a' ∷ []))
    × IsValid (remove_cron table (b'a' ∷ [])).1
remove_cron-Removed_example = remove_cron-Removed table (b'a' ∷ []) table-IsValid
