-- ===== src/CronScheduler/Jobs.antt =====
-- src/cron_scheduler.c: the table of jobs, as the multiset of them.
use libcore.Base.{ℕ, ◌+◌, ◌<◌, ◌≤◌, Bool, true, false, ◌≡◌}
use libcore.Base.{none, some, List, [], ◌∷◌, ◌++◌, ◌⊎◌, length, if◌then◌else◌, arith}
use libcore.CronScheduler.{CronJob, CronScheduler, parse_cron_expr, blank_job}

-- The table has room for its jobs, and some.
unfoldable pub IsValid : CronScheduler → Type 0
IsValid s = (length s.jobs ≤ s.job_capacity) × (0 < s.job_capacity)

-- How many jobs pass a test.
unfoldable pub count_jobs : (CronJob → Bool) → List CronJob → ℕ
count_jobs p [] = 0
count_jobs p (j ∷ js) = (if p j then 1 else 0) + count_jobs p js

pub count_jobs-append :
    (p : CronJob → Bool) (xs ys : List CronJob)
    → count_jobs p (xs ++ ys) ≡ count_jobs p xs + count_jobs p ys
unfolding count_jobs
count_jobs-append p [] ys = omega arith
count_jobs-append p (x ∷ xs) ys = omega (arith, count_jobs-append p xs ys)

-- What `addCron` does: a job is added behind the others, or nothing, for want of memory or of six fields.
pub Added : Bool → CronScheduler → List ℕ → List ℕ → ℕ → ℕ → Bool × CronScheduler → Type 0
Added realloc s name expr cb ud u =
    ((u.0 ≡ true)
      × ((job : CronJob) × (parse_cron_expr expr (blank_job name cb ud) ≡ some job)
          × (u.1.jobs ≡ s.jobs ++ job ∷ [])))
    ⊎ ((u.0 ≡ false)
        × (u.1.jobs ≡ s.jobs)
        × ((realloc ≡ false) ⊎ (parse_cron_expr expr (blank_job name cb ud) ≡ none)))
