-- ===== src/ToosType/Context/Ranking/Ranks.antt =====
-- src/toos_type_game_context.c: the ranks of the sorted entries.
use libcore.Base.{
  ℕ, suc, ◌+◌, ◌≡◌, refl, sym, ap, ◌∙◌, arith, Bool, true, false, List, [], ◌∷◌, if◌then◌else◌,
  length, Bool-cases, inl, inr,
}
use libcore.ToosType.Context.{RankingEntry}
use libcore.ToosType.Context.Ranking.{sort_entries, same_status, is_tied, rank_from, give_ranks}
use libcore.ToosType.Context.Ranking.Order.{
  grade, worse, length-grade, worse_trans, worse_refl, worse_total, worse_grade, is_ended,
}
use libcore.ToosType.Context.Ranking.Sorted.{
  Before, BeforeAll, Sorted, all_ended, all_ended_split, tally_by, IsSortOf, sort_entries-IsSortOf,
}

-- `x` has a better grade than `e`.
is_better : RankingEntry → RankingEntry → Bool
is_better e x = worse (grade e) 0 (grade x) 0

-- Entries that are tied have the same grade.
tied_grade :
    (a b : RankingEntry)
    → is_ended a ≡ true
    → is_ended b ≡ true
    → is_tied a b ≡ true
    → grade a ≡ grade b
unfolding is_tied same_status is_ended grade worse
tied_grade a b h h' t =
    worse_total (grade a) (grade b) (length-grade a ∙ sym (length-grade b)) (ground arith)
      (ground arith)

-- Of entries that are not tied, one is better.
untied_better :
    (a b : RankingEntry)
    → is_ended a ≡ true
    → is_ended b ≡ true
    → is_tied a b ≡ false
    → is_better a b ≡ false
    → is_better b a ≡ true
unfolding is_tied same_status is_ended grade worse is_better
untied_better a b h h' t w = ground arith

-- Every entry has the rank that a count `above` of the entries above it gives.
pub Ranked : (RankingEntry → ℕ) → List RankingEntry → Type 0
Ranked above [] = Unit
Ranked above (e ∷ es) = (e.rank ≡ suc (above e)) × Ranked above es

-- A count of the entries above that only looks at the grade.
ByGrade : (RankingEntry → ℕ) → Type 0
ByGrade above = (a b : RankingEntry) → grade a ≡ grade b → above a ≡ above b

-- Of the entries behind one, none is better.
BeforeAll-tally :
    (a : RankingEntry) (es : List RankingEntry) → BeforeAll a es → tally_by (is_better a) es ≡ 0
unfolding BeforeAll Before tally_by is_better
BeforeAll-tally a [] h = refl
BeforeAll-tally a (e ∷ es) (h, hs) =
    let low = worse_grade (grade a) a.player_no (grade e) e.player_no h in
    rw (low) (BeforeAll-tally a es hs)

-- The entries behind `i` others, the last of which is `prev`: `seen` counts, for an entry, the better ones
-- among these, and `above` all better ones.
Behind : (RankingEntry → ℕ) → (RankingEntry → ℕ) → RankingEntry → ℕ → List RankingEntry → Type 0
Behind above seen prev i es =
    ByGrade above
    × ((x : RankingEntry) → above x ≡ seen x + tally_by (is_better x) es)
    × ((x : RankingEntry) → is_better x prev ≡ true → seen x ≡ i)
    × (is_ended prev ≡ true)

-- Better than an entry that does not come before another is better than this one.
better_through :
    (x prev e : RankingEntry)
    → is_better prev e ≡ false
    → is_better x e ≡ true
    → is_better x prev ≡ true
unfolding is_better
better_through x prev e h b =
    let size = length-grade x ∙ sym (length-grade prev) in
    let size' = length-grade prev ∙ sym (length-grade e) in
    let through = worse_trans (grade x) 0 (grade prev) 0 (grade e) 0 size size' in
    elim (Bool-cases (worse (grade x) 0 (grade prev) 0)) [
      | inl y ↦ y
      | inr y ↦ grind (arith, through)
    ]

better_self : (e : RankingEntry) → is_better e e ≡ false
unfolding is_better
better_self e = worse_refl (grade e) 0

Before-better : (a b : RankingEntry) → Before a b → is_better a b ≡ false
unfolding Before is_better
Before-better a b h = worse_grade (grade a) a.player_no (grade b) b.player_no h

-- The entries above the first of those behind are in front of it.
above_first :
    (above seen : RankingEntry → ℕ) (prev e : RankingEntry) (i : ℕ) (es : List RankingEntry)
    → Behind above seen prev i (e ∷ es)
    → BeforeAll e es
    → above e ≡ seen e
unfolding Behind tally_by
above_first above seen prev e i es (graded, all, front, ended) h =
    let total = all e in
    let self = better_self e in let rest = BeforeAll-tally e es h in ground arith

rank_first :
    (above seen : RankingEntry → ℕ) (prev e : RankingEntry) (i : ℕ) (es : List RankingEntry)
    → Behind above seen prev i (e ∷ es)
    → Before prev e
    → BeforeAll e es
    → is_ended e ≡ true
    → prev.rank ≡ suc (above prev)
    → (if is_tied prev e then prev.rank else i + 1) ≡ suc (above e)
unfolding Behind ByGrade
rank_first above seen prev e i es b h hs ended_e ranked =
    let (graded, all, front, ended) = b in
    let first = above_first above seen prev e i es b hs in
    elim (Bool-cases (is_tied prev e)) [
      | inl t ↦
          let same = graded prev e (tied_grade prev e ended ended_e t) in
          rw (t) (ranked ∙ ap suc same)
      | inr t ↦
          let better = untied_better prev e ended ended_e t (Before-better prev e h) in
          rw (t) (omega (arith, first, front e better))
    ]

-- The same with the first entry, ranked, among those in front.
Behind-next :
    (above seen : RankingEntry → ℕ) (prev e : RankingEntry) (i : ℕ) (es : List RankingEntry)
    → Behind above seen prev i (e ∷ es)
    → Before prev e
    → is_ended e ≡ true
    → Behind above (λ x. if is_better x e then suc (seen x) else seen x) e (i + 1) es
unfolding Behind tally_by
Behind-next above seen prev e i es (graded, all, front, ended) h ended_e = (
  graded,
  λ x. (let total = all x in ground arith),
  λ x b.
      (let count = front x (better_through x prev e (Before-better prev e h) b) in
        rw (b) (omega (arith, count))),
  ended_e,
)

-- A rank changes neither the grade of an entry nor its place.
reranked :
    (above seen : RankingEntry → ℕ) (e : RankingEntry) (r i : ℕ) (es : List RankingEntry)
    → Behind above seen e i es
    → Behind above seen (record e { rank = r }) i es
unfolding Behind is_better grade is_ended
reranked above seen e r i es b = b

by_grade :
    (above seen : RankingEntry → ℕ) (prev : RankingEntry) (i : ℕ) (es : List RankingEntry)
    → Behind above seen prev i es
    → (a b : RankingEntry) → grade a ≡ grade b
    → above a ≡ above b
unfolding Behind ByGrade
by_grade above seen prev i es b = b.0

regraded : (e : RankingEntry) (r : ℕ) → grade e ≡ grade (record e { rank = r })
unfolding grade
regraded e r = refl

BeforeAll-reranked :
    (e : RankingEntry) (r : ℕ) (es : List RankingEntry)
    → BeforeAll e es
    → BeforeAll (record e { rank = r }) es
unfolding BeforeAll Before grade
BeforeAll-reranked e r [] h = tt
BeforeAll-reranked e r (x ∷ es) (h, hs) = (h, BeforeAll-reranked e r es hs)

-- No entry is better than the first.
first_above :
    (e : RankingEntry) (es : List RankingEntry)
    → BeforeAll e es
    → 1 ≡ suc (tally_by (is_better (record e { rank = 1 })) (e ∷ es))
unfolding is_better grade tally_by
first_above e es h = let self = better_self e in let rest = BeforeAll-tally e es h in ground arith

rank_from-Ranked :
    (above seen : RankingEntry → ℕ) (prev : RankingEntry) (i : ℕ) (es : List RankingEntry)
    → Behind above seen prev i es
    → BeforeAll prev es
    → Sorted es
    → all_ended es ≡ true
    → prev.rank ≡ suc (above prev)
    → Ranked above (rank_from prev i es)
unfolding rank_from Ranked BeforeAll Sorted
rank_from-Ranked above seen prev i [] b h s ended ranked = tt
rank_from-Ranked above seen prev i (e ∷ es) b (h, hs) (s, ss) ended ranked =
    let (ended_e, ended_es) = all_ended_split e es ended in
    let r = if is_tied prev e then prev.rank else i + 1 in
    let e' : RankingEntry = record e { rank = r } in
    let ranked_e : r ≡ suc (above e') =
      rank_first above seen prev e i es b h s ended_e ranked
      ∙ ap suc (by_grade above seen prev i (e ∷ es) b e e' (regraded e r)) in
    let b' = reranked above _ e r (i + 1) es (Behind-next above seen prev e i es b h ended_e) in
    (
      ranked_e,
      rank_from-Ranked above (λ x. if is_better x e then suc (seen x) else seen x) e' (i + 1) es b'
          (BeforeAll-reranked e r es s) ss ended_es ranked_e,
    )

Ranked-same :
    (above above' : RankingEntry → ℕ) (es : List RankingEntry)
    → ((x : RankingEntry) → above x ≡ above' x)
    → Ranked above es
    → Ranked above' es
unfolding Ranked
Ranked-same above above' [] same h = tt
Ranked-same above above' (e ∷ es) same (h, hs) =
    (h ∙ ap suc (same e), Ranked-same above above' es same hs)

-- How many of some entries have a better grade than an entry.
pub better_than : List RankingEntry → RankingEntry → ℕ
better_than es x = tally_by (is_better x) es

Behind-first :
    (e : RankingEntry) (es : List RankingEntry)
    → is_ended e ≡ true
    → Behind (better_than (e ∷ es)) (λ x. if is_better x e then 1 else 0) e 1 es
unfolding Behind ByGrade better_than tally_by is_better
Behind-first e es h = (
  λ a b same. ap (λ g. tally_by (λ x. worse g 0 (grade x) 0) (e ∷ es)) same,
  λ x. ground arith,
  λ x better. rw (better) refl,
  h,
)

give_ranks-Sorted :
    (es : List RankingEntry)
    → Sorted es
    → all_ended es ≡ true
    → Ranked (better_than es) (give_ranks es)
unfolding give_ranks Sorted Ranked better_than
give_ranks-Sorted [] s h = tt
give_ranks-Sorted (e ∷ es) (s, ss) h =
    let (ended_e, ended_es) = all_ended_split e es h in
    let e' : RankingEntry = record e { rank = 1 } in
    let b = reranked (better_than (e ∷ es)) _ e 1 1 es (Behind-first e es ended_e) in
    let top : 1 ≡ suc (better_than (e ∷ es) e') = first_above e es s in
    (
      top,
      rank_from-Ranked (better_than (e ∷ es)) _ e' 1 es b (BeforeAll-reranked e 1 es s) ss ended_es
          top,
    )

-- In the final ranking of players whose game has ended, every entry's rank is one more than the number
-- of the entries that have a better grade.
pub give_ranks-sort_entries :
    (es : List RankingEntry)
    → all_ended es ≡ true
    → Ranked (better_than es) (give_ranks (sort_entries (length es) es))
unfolding better_than IsSortOf
give_ranks-sort_entries es h =
    let (sorted, same, ended) = sort_entries-IsSortOf (length es) es refl h in
    let s = sort_entries (length es) es in
    Ranked-same (better_than s) (better_than es) (give_ranks s) (λ x. same (is_better x))
      (give_ranks-Sorted s sorted ended)
