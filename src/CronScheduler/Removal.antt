-- ===== src/CronScheduler/Removal.antt =====
-- src/cron_scheduler.c: the removal of a job, and the rounds of the worker.
use libcore.Base.{ℕ, zero, suc, ◌+◌, ◌<◌, ◌≤◌, Bool, true, false, ◌≡◌, refl, ap, ◌∙◌}
use libcore.Base.{
  Option, none, some, inl, inr, List, [], ◌∷◌, take, set, get_or, get_or-set, ◌⊎◌, length,
  length-take, length-set, ◌==◌, if◌then◌else◌, arith, Bool-cases, Option-cases,
}
use libcore.CronScheduler.Text.{same_text}
use libcore.CronScheduler.{CronJob, CronScheduler, blank_job, index_of, drop_at, remove_cron}
use libcore.Base.{◌≢◌}
use libcore.CronScheduler.{Tm, fire, cron_matches, worker_round}
use libcore.CronScheduler.Jobs.{IsValid, count_jobs}

one_if : (CronJob → Bool) → CronJob → ℕ
one_if p j = if p j then 1 else 0

count_jobs-set :
    (p : CronJob → Bool) (xs : List CronJob) (i : ℕ) (v d : CronJob)
    → i < length xs
    → count_jobs p (set xs i v) + one_if p (get_or xs i d) ≡ count_jobs p xs + one_if p v
unfolding count_jobs one_if
count_jobs-set p [] i v d h = absurd (omega arith)
count_jobs-set p (x ∷ xs) zero v d h = omega arith
count_jobs-set p (x ∷ xs) (suc i) v d h = omega (arith, count_jobs-set p xs i v d (omega arith))

count_jobs-take :
    (p : CronJob → Bool) (n : ℕ) (xs : List CronJob) (d : CronJob)
    → length xs ≡ suc n
    → count_jobs p (take n xs) + one_if p (get_or xs n d) ≡ count_jobs p xs
unfolding count_jobs one_if
count_jobs-take p n [] d h = absurd (omega arith)
count_jobs-take p zero (x ∷ []) d h = omega arith
count_jobs-take p zero (x ∷ y ∷ xs) d h = absurd (omega arith)
count_jobs-take p (suc n) (x ∷ xs) d h = omega (arith, count_jobs-take p n xs d (omega arith))

count_jobs-drop_at :
    (p : CronJob → Bool) (i : ℕ) (js : List CronJob) (d : CronJob)
    → i < length js
    → (count_jobs p (drop_at i js) + one_if p (get_or js i d) ≡ count_jobs p js)
      × (suc (length (drop_at i js)) ≡ length js)
unfolding drop_at
count_jobs-drop_at p i [] d h = absurd (omega arith)
count_jobs-drop_at p i (j ∷ js) d h =
    let xs : List CronJob = j ∷ js in
    let last : CronJob = get_or xs (length js) j in
    let n = length-set xs i last in
    let put = count_jobs-set p xs i last d h in
    let cut = count_jobs-take p (length js) (set xs i last) j n in
    let read : get_or (set xs i last) (length js) j ≡ last =
      get_or-set xs i (length js) last j h ∙ same_twice (i == length js) last in
    let read_p : one_if p (get_or (set xs i last) (length js) j) ≡ one_if p last =
      ap (one_if p) read in
    let size = length-take (length js) (set xs i last) in (omega arith, omega arith)
  where
    same_twice : (b : Bool) (x : CronJob) → (if b then x else x) ≡ x
    same_twice true x = refl
    same_twice false x = refl

index_of-some :
    (name : List ℕ) (js : List CronJob) (i : ℕ) (d : CronJob)
    → index_of name js ≡ some i
    → (i < length js) × (same_text (get_or js i d).name name ≡ true)
unfolding index_of
index_of-some name [] i d h = absurd cc
index_of-some name (j ∷ js) i d h = elim (Bool-cases (same_text j.name name)) [
  | inl e ↦ let z : i ≡ 0 = ground arith in (omega arith, simp z e)
  | inr e ↦ elim (Option-cases (index_of name js)) [
    | inl f ↦ absurd (cc (simp (index_of, e, f) at h))
    | inr (k, f) ↦
        let z : i ≡ suc k = ground arith in
        let (l, same) = index_of-some name js k d f in (omega arith, simp z same)
  ]
]

index_of-none :
    (name : List ℕ) (js : List CronJob)
    → index_of name js ≡ none
    → count_jobs (λ j. same_text j.name name) js ≡ 0
unfolding index_of count_jobs
index_of-none name [] h = refl
index_of-none name (j ∷ js) h = elim (Bool-cases (same_text j.name name)) [
  | inl e ↦ absurd (cc (simp (index_of, e) at h))
  | inr e ↦ elim (Option-cases (index_of name js)) [
    | inl f ↦ let rest = index_of-none name js f in ground arith
    | inr (k, f) ↦ absurd (cc (simp (index_of, e, f) at h))
  ]
]

-- What `removeCron` does: one job of the name goes and all others stay, or there is none of the name.
pub Removed : CronScheduler → List ℕ → Bool × CronScheduler → Type 0
Removed s name u =
    ((u.0 ≡ true)
      × ((j : CronJob) × (same_text j.name name ≡ true)
          × ((p : CronJob → Bool) → count_jobs p u.1.jobs + one_if p j ≡ count_jobs p s.jobs)))
    ⊎ ((u.0 ≡ false) × (u.1 ≡ s) × (count_jobs (λ j. same_text j.name name) s.jobs ≡ 0))

-- `removeCron` takes exactly one job of the name out of the table, where there is one, and returns true;
-- otherwise it returns false and changes nothing. The table keeps within its room.
pub remove_cron-Removed :
    (s : CronScheduler) (name : List ℕ)
    → IsValid s
    → Removed s name (remove_cron s name) × IsValid (remove_cron s name).1
unfolding Removed remove_cron IsValid
remove_cron-Removed s name v = elim (Option-cases (index_of name s.jobs)) [
  | inl e ↦ simp (remove_cron, e) (inr (refl, refl, index_of-none name s.jobs e), v)
  | inr (i, e) ↦
      let d = blank_job [] 0 0 in
      let (l, same) = index_of-some name s.jobs i d e in
      let n = (count_jobs-drop_at (λ j. true) i s.jobs d l).1 in
      simp (remove_cron, e)
        (
          inl (refl, (get_or s.jobs i d, same, λ p. (count_jobs-drop_at p i s.jobs d l).0)),
          (let (room, some_room) = v in (omega arith, omega arith)),
        )
]

-- The names of the table fit their 64 bytes.
pub NamesFit : List CronJob → Type 0
NamesFit [] = Unit
NamesFit (j ∷ js) = (length j.name ≤ 63) × NamesFit js

length-same_text : (a b : List ℕ) → same_text a b ≡ true → length a ≡ length b
unfolding same_text
length-same_text [] [] h = refl
length-same_text [] (b ∷ bs) h = absurd cc
length-same_text (a ∷ more) [] h = absurd cc
length-same_text (a ∷ more) (b ∷ bs) h = ap suc (length-same_text more bs (ground arith))

index_of-long_name :
    (name : List ℕ) (js : List CronJob) → 63 < length name → NamesFit js → index_of name js ≡ none
unfolding index_of NamesFit
index_of-long_name name [] l f = refl
index_of-long_name name (j ∷ js) l (fit, fits) =
    let rest = index_of-long_name name js l fits in
    elim (Bool-cases (same_text j.name name)) [
      | inl e ↦ absurd (omega (arith, length-same_text j.name name e))
      | inr e ↦ simp (index_of, e, rest) refl
    ]

-- A job whose name has 64 bytes or more cannot be removed by that name: the table keeps 63 of them.
pub remove_cron-long_name :
    (s : CronScheduler) (name : List ℕ)
    → NamesFit s.jobs
    → 63 < length name
    → remove_cron s name ≡ (false, s)
unfolding remove_cron
remove_cron-long_name s name f l = simp (remove_cron, index_of-long_name name s.jobs l f) refl

length-fire :
    (js : List CronJob) (t : Tm)
    → length (fire (λ j. true) js t) ≡ count_jobs (λ j. cron_matches j t) js
unfolding fire count_jobs
length-fire [] t = refl
length-fire (j ∷ js) t = let rest = length-fire js t in ground arith

other_sec : (a b : ℕ) → a ≢ b → (a == b) ≡ false
other_sec a b h = ground arith

-- The worker starts one callback for each job whose time it is, where every start succeeds, and no other;
-- and a second round in the same second starts none.
pub worker_round_lem :
    (s : CronScheduler) (last_sec : Option ℕ) (t : Tm)
    → last_sec ≢ some t.tm_sec
    → (length (worker_round (λ j. true) s last_sec t).0 ≡ count_jobs (λ j. cron_matches j t) s.jobs)
      × ((worker_round (λ j. true) s (worker_round (λ j. true) s last_sec t).1 t).0 ≡ [])
unfolding worker_round
worker_round_lem s none t h = (length-fire s.jobs t, ground arith)
worker_round_lem s (some sec) t h =
    let other : (sec == t.tm_sec) ≡ false = other_sec sec t.tm_sec (λ e. h (ap some e)) in
    simp other (length-fire s.jobs t, ground arith)
