-- ===== src/CronScheduler.antt =====
-- src/cron_scheduler.c: cron expressions and the table of jobs. A string is the list of its bytes; the
-- functions of string.h and stdlib.h that the source calls are written out in `Text`.
pub mod Text
pub mod BitSet
pub mod Field
pub mod Match
pub mod Written
pub mod Meaning
pub mod Expression
pub mod Jobs
pub mod Removal
mod Tests
use libcore.Base.{ℕ, zero, suc, ◌+◌, ◌-◌, ◌*◌, ◌%◌, ◌^◌, min, max, Bool, true, false, not, ◌&&◌}
use libcore.Base.{
  Option, none, some, List, [], ◌∷◌, ◌++◌, ltb, leb, ◌==◌, if◌then◌else◌, length, take, get_or, set,
}
use libcore.Base.Int.{ℤ, pos, negsuc}
use libcore.CronScheduler.Text.{atoi, tokens, after_byte, same_text}
use libcore.CronScheduler.BitSet.{set_bit, test_bit}

-- `for (int i = from; i <= last; i += step) bitmap |= (1ULL << i)`, on `rounds` rounds at most.
-- An `i` or a step that is no `int` has no meaning in C, and theorems ask for smaller ones.
pub set_every : ℕ → ℕ → ℕ → ℕ → ℕ → ℕ
set_every zero i last step bitmap = bitmap
set_every (suc rounds) i last step bitmap =
    let rest = set_every rounds (i + step) last step (set_bit bitmap i) in
    if leb i last then rest else bitmap

pub for_loop : ℕ → ℕ → ℕ → ℕ → ℕ
for_loop from last step bitmap = set_every (last + 1 - from) from last step bitmap

-- The number behind `*/`, where one below 1 becomes 1.
pub step_of : List ℕ → ℕ
step_of s = elim (atoi s) [ pos n ↦ max n 1 | negsuc n ↦ 1 ]

-- A part of a list: a range, cut to the limits, or a value within them.
pub set_range : ℕ → ℕ → ℤ → ℤ → ℕ → ℕ
set_range min_val max_val from (negsuc m) bitmap = bitmap
set_range min_val max_val (pos n) (pos m) bitmap = for_loop (max n min_val) (min m max_val) 1 bitmap
set_range min_val max_val (negsuc n) (pos m) bitmap = for_loop min_val (min m max_val) 1 bitmap

pub set_value : ℕ → ℕ → ℤ → ℕ → ℕ
set_value min_val max_val (pos n) bitmap =
    if leb min_val n && leb n max_val then set_bit bitmap n else bitmap
set_value min_val max_val (negsuc n) bitmap = bitmap

pub set_token : ℕ → ℕ → List ℕ → ℕ → ℕ
set_token min_val max_val token bitmap = elim (after_byte b'-' token) [
  | some rest ↦ set_range min_val max_val (atoi token) (atoi rest) bitmap
  | none ↦ set_value min_val max_val (atoi token) bitmap
]

-- The loop over the parts.
pub set_tokens : ℕ → ℕ → List (List ℕ) → ℕ → ℕ
set_tokens min_val max_val [] bitmap = bitmap
set_tokens min_val max_val (t ∷ ts) bitmap =
    set_tokens min_val max_val ts (set_token min_val max_val t bitmap)

-- The forms of a field: `*`, `*/n`, and a list.
pub data Form : Type 0 where
  every : Form
  stepped : List ℕ → Form
  parts : List (List ℕ) → Form

pub form_of : List ℕ → Form
form_of [] = parts []
form_of (c ∷ []) = if c == b'*' then every else parts (tokens (b',' ∷ []) (c ∷ []))
form_of (c ∷ d ∷ rest) =
    if c == b'*' && d == b'/'
    then stepped rest
    else parts (tokens (b',' ∷ []) (take 127 (c ∷ d ∷ rest)))

pub parse_field : List ℕ → ℕ → ℕ → ℕ
parse_field field min_val max_val = elim (form_of field) [
  | every ↦ for_loop min_val max_val 1 0
  | stepped s ↦ for_loop min_val max_val (step_of s) 0
  | parts ts ↦ set_tokens min_val max_val ts 0
]

pub record CronJob : Type 0 where
  pub name : List ℕ
  pub seconds : ℕ
  pub minutes : ℕ
  pub hours : ℕ
  pub days : ℕ
  pub months : ℕ
  pub weekdays : ℕ
  pub cb : ℕ
  pub ud : ℕ

-- `parse_cron_expr`: the first six fields, of which there must be six; the sets are cut to the widths of
-- a job's members.
pub fill_job : List (List ℕ) → CronJob → Option CronJob
fill_job (f0 ∷ f1 ∷ f2 ∷ f3 ∷ f4 ∷ f5 ∷ more) job = some (record job {
  seconds = parse_field f0 0 59;
  minutes = parse_field f1 0 59;
  hours = parse_field f2 0 23 % 2 ^ 32;
  days = parse_field f3 1 31 % 2 ^ 32;
  months = parse_field f4 1 12 % 2 ^ 16;
  weekdays = parse_field f5 0 6 % 2 ^ 8;
})
fill_job _ job = none

pub parse_cron_expr : List ℕ → CronJob → Option CronJob
parse_cron_expr expr job = fill_job (tokens (b' ' ∷ 9 ∷ []) (take 255 expr)) job

-- `struct tm`, in the members that are read.
pub record Tm : Type 0 where
  pub tm_sec : ℕ
  pub tm_min : ℕ
  pub tm_hour : ℕ
  pub tm_mday : ℕ
  pub tm_mon : ℕ
  pub tm_wday : ℕ

pub cron_matches : CronJob → Tm → Bool
cron_matches job t =
    if not (test_bit job.seconds t.tm_sec)
    then false
    else if not (test_bit job.minutes t.tm_min)
    then false
    else if not (test_bit job.hours t.tm_hour)
    then false
    else if not (test_bit job.days t.tm_mday)
    then false
    else if not (test_bit job.months (t.tm_mon + 1))
    then false
    else if not (test_bit job.weekdays t.tm_wday)
    then false
    else true

-- The table: `jobs` has the `job_count` jobs that there are.
pub record CronScheduler : Type 0 where
  pub jobs : List CronJob
  pub job_capacity : ℕ

new_scheduler : CronScheduler
new_scheduler = record { jobs = []; job_capacity = 16 }

-- A job of zeros with its name, cut to 63 bytes, and its callback.
pub blank_job : List ℕ → ℕ → ℕ → CronJob
blank_job name cb ud = record {
  name = take 63 name;
  seconds = 0;
  minutes = 0;
  hours = 0;
  days = 0;
  months = 0;
  weekdays = 0;
  cb = cb;
  ud = ud;
}

-- `addCron` on arguments that are not NULL: `realloc` may give no memory.
pub make_room : Bool → CronScheduler → Option CronScheduler
make_room realloc s =
    if leb s.job_capacity (length s.jobs)
    then (if realloc then some (record s { job_capacity = s.job_capacity * 2 }) else none)
    else some s

pub add_cron : Bool → CronScheduler → List ℕ → List ℕ → ℕ → ℕ → Bool × CronScheduler
add_cron realloc s name expr cb ud = elim (make_room realloc s) [
  | none ↦ (false, s)
  | some t ↦ elim (parse_cron_expr expr (blank_job name cb ud)) [
    | none ↦ (false, t)
    | some job ↦ (true, record t { jobs = t.jobs ++ job ∷ [] })
  ]
]

-- `removeCron`: the loop finds the index of the first job of the name.
pub index_of : List ℕ → List CronJob → Option ℕ
index_of name [] = none
index_of name (j ∷ js) =
    let rest = index_of name js in
    if same_text j.name name then some 0 else elim rest [ none ↦ none | some i ↦ some (suc i) ]

-- The last job moves to the place of the one that goes.
pub drop_at : ℕ → List CronJob → List CronJob
drop_at i [] = []
drop_at i (j ∷ js) = take (length js) (set (j ∷ js) i (get_or (j ∷ js) (length js) j))

pub remove_cron : CronScheduler → List ℕ → Bool × CronScheduler
remove_cron s name = elim (index_of name s.jobs) [
  | none ↦ (false, s)
  | some i ↦ (true, record s { jobs = drop_at i s.jobs })
]

-- A round of the worker's loop at a local time: the callbacks that it starts, where each start may fail,
-- and the second that it remembers. No job's callback is NULL, since `addCron` refuses it.
pub fire : (CronJob → Bool) → List CronJob → Tm → List (ℕ × ℕ)
fire starts [] t = []
fire starts (j ∷ js) t =
    let rest = fire starts js t in
    if cron_matches j t && starts j then (j.cb, j.ud) ∷ rest else rest

pub worker_round : (CronJob → Bool) → CronScheduler → Option ℕ → Tm → List (ℕ × ℕ) × Option ℕ
worker_round starts s last_sec t =
    let fired : List (ℕ × ℕ) × Option ℕ = (fire starts s.jobs t, some t.tm_sec) in
    elim last_sec [ none ↦ fired | some sec ↦ if sec == t.tm_sec then ([], some sec) else fired ]
