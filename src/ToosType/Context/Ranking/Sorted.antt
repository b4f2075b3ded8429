-- ===== src/ToosType/Context/Ranking/Sorted.antt =====
-- src/toos_type_game_context.c: the entries of the ranking are sorted, and they stay the same entries.
use libcore.Base.{
  ℕ, zero, suc, ◌≡◌, refl, sym, ap, ◌∙◌, arith, Bool, true, false, ◌&&◌, List, [], ◌∷◌,
  if◌then◌else◌, length, Bool-cases, inl, inr,
}
use libcore.ToosType.Context.{RankingEntry}
use libcore.ToosType.Context.Ranking.{should_swap, exchange, sort_entries}
use libcore.ToosType.Context.Ranking.Order.{
  grade, worse, length-grade, worse_flip, worse_trans, worse_refl, is_ended, should_swap-worse,
}

-- `b` does not come before `a`.
unfoldable pub Before : RankingEntry → RankingEntry → Type 0
Before a b = worse (grade a) a.player_no (grade b) b.player_no ≡ false

unfoldable pub BeforeAll : RankingEntry → List RankingEntry → Type 0
BeforeAll a [] = Unit
BeforeAll a (b ∷ bs) = Before a b × BeforeAll a bs

-- No entry comes before one that stands in front of it.
unfoldable pub Sorted : List RankingEntry → Type 0
Sorted [] = Unit
Sorted (a ∷ as') = BeforeAll a as' × Sorted as'

unfoldable pub all_ended : List RankingEntry → Bool
all_ended [] = true
all_ended (e ∷ es) = is_ended e && all_ended es

-- How many entries pass a test.
unfoldable pub tally_by : (RankingEntry → Bool) → List RankingEntry → ℕ
tally_by test [] = 0
tally_by test (e ∷ es) = if test e then suc (tally_by test es) else tally_by test es

pub Before-trans : (a b c : RankingEntry) → Before a b → Before b c → Before a c
unfolding Before
Before-trans a b c h h' =
    worse_trans (grade a) a.player_no (grade b) b.player_no (grade c) c.player_no
      (length-grade a ∙ sym (length-grade b)) (length-grade b ∙ sym (length-grade c)) h h'

-- The two entries after the test and the exchange, in their order.
exchanged :
    (e x : RankingEntry)
    → is_ended e ≡ true
    → is_ended x ≡ true
    → Before (if should_swap e x then x else e) (if should_swap e x then e else x)
      × Before (if should_swap e x then x else e) e
unfolding Before
exchanged e x h h' =
    let same = should_swap-worse e x h h' in
    let itself = worse_refl (grade e) e.player_no in
    elim (Bool-cases (should_swap e x)) [
      | inl s ↦
          let less = sym same ∙ s in
          let flip = worse_flip (grade e) e.player_no (grade x) x.player_no less in
          rw (s) (flip, flip)
      | inr s ↦ rw (s) (sym same ∙ s, itself)
    ]

-- What a pass leaves: the first entry comes before the rest, all are the entries that were there.
Passed : RankingEntry → List RankingEntry → RankingEntry × List RankingEntry → Type 0
Passed e xs r =
    Before (r.0) e
    × BeforeAll (r.0) (r.1)
    × (is_ended (r.0) ≡ true)
    × (all_ended (r.1) ≡ true)
    × (length (r.1) ≡ length xs)
    × ((test : RankingEntry → Bool) → tally_by test (r.0 ∷ r.1) ≡ tally_by test (e ∷ xs))

Passed-none : (e : RankingEntry) → is_ended e ≡ true → Passed e [] (e, [])
unfolding Passed BeforeAll all_ended Before
Passed-none e h = (worse_refl (grade e) e.player_no, tt, h, refl, refl, λ test. refl)

pub all_ended_split :
    (e : RankingEntry) (es : List RankingEntry)
    → all_ended (e ∷ es) ≡ true
    → (is_ended e ≡ true) × (all_ended es ≡ true)
unfolding all_ended
all_ended_split e es h = ground arith

one_swap :
    (test : RankingEntry → Bool) (swap : Bool) (e x f : RankingEntry) (xs rest : List RankingEntry)
    → tally_by test (f ∷ rest) ≡ tally_by test ((if swap then x else e) ∷ xs)
    → tally_by test (f ∷ (if swap then e else x) ∷ rest) ≡ tally_by test (e ∷ x ∷ xs)
unfolding tally_by
one_swap test true e x f xs rest h = ground arith
one_swap test false e x f xs rest h = ground arith

either_ended :
    (swap : Bool) (e x : RankingEntry)
    → is_ended e ≡ true
    → is_ended x ≡ true
    → is_ended (if swap then x else e) ≡ true
either_ended true e x h h' = h'
either_ended false e x h h' = h

pass_step :
    (e x : RankingEntry) (xs : List RankingEntry) (r : RankingEntry × List RankingEntry)
    → is_ended e ≡ true
    → is_ended x ≡ true
    → Passed (if should_swap e x then x else e) xs r
    → Passed e (x ∷ xs) (r.0, (if should_swap e x then e else x) ∷ r.1)
unfolding Passed BeforeAll all_ended
pass_step e x xs r h h' (low, all, a, b, size, count) =
    let swap = should_swap e x in
    let first = if swap then x else e in
    let other = if swap then e else x in
    let (in_order, best) = exchanged e x h h' in
    let other_ended : is_ended other ≡ true = either_ended swap x e h' h in
    (
      Before-trans (r.0) first e low best,
      (Before-trans (r.0) first other low in_order, all),
      a,
      rw (other_ended, b) refl,
      ap suc size,
      λ test. one_swap test swap e x (r.0) xs (r.1) (count test),
    )

exchange_lem :
    (e : RankingEntry) (xs : List RankingEntry)
    → is_ended e ≡ true
    → all_ended xs ≡ true
    → Passed e xs (exchange e xs)
unfolding exchange
exchange_lem e [] h h' = Passed-none e h
exchange_lem e (x ∷ xs) h h' =
    let (ended_x, ended_xs) = all_ended_split x xs h' in
    pass_step e x xs (exchange (if should_swap e x then x else e) xs) h ended_x (
      exchange_lem (if should_swap e x then x else e) xs
        (either_ended (should_swap e x) e x h ended_x) ended_xs)

-- An entry that comes before all is one that none comes before: a count, which an exchange keeps.
comes_before : RankingEntry → RankingEntry → Bool
comes_before a b = worse (grade a) a.player_no (grade b) b.player_no

BeforeAll-tally :
    (a : RankingEntry) (es : List RankingEntry) → BeforeAll a es → tally_by (comes_before a) es ≡ 0
unfolding BeforeAll Before tally_by comes_before
BeforeAll-tally a [] h = refl
BeforeAll-tally a (e ∷ es) (h, hs) = rw (h) (BeforeAll-tally a es hs)

tally-BeforeAll :
    (a : RankingEntry) (es : List RankingEntry) → tally_by (comes_before a) es ≡ 0 → BeforeAll a es
unfolding BeforeAll Before tally_by comes_before
tally-BeforeAll a [] h = tt
tally-BeforeAll a (e ∷ es) h =
    let none_here : worse (grade a) a.player_no (grade e) e.player_no ≡ false = ground arith in
    (none_here, tally-BeforeAll a es (ground arith))

tally_more :
    (test : RankingEntry → Bool) (e f : RankingEntry) (es fs gs : List RankingEntry)
    → tally_by test gs ≡ tally_by test fs
    → tally_by test (f ∷ fs) ≡ tally_by test (e ∷ es)
    → tally_by test (f ∷ gs) ≡ tally_by test (e ∷ es)
unfolding tally_by
tally_more test e f es fs gs h h' = ground arith

Passed-length :
    (e : RankingEntry) (xs : List RankingEntry) (r : RankingEntry × List RankingEntry)
    → Passed e xs r
    → length (r.1) ≡ length xs
unfolding Passed
Passed-length e xs r p = p.4

Passed-ended :
    (e : RankingEntry) (xs : List RankingEntry) (r : RankingEntry × List RankingEntry)
    → Passed e xs r
    → all_ended (r.1) ≡ true
unfolding Passed
Passed-ended e xs r p = p.3

-- What the sort promises: sorted, the same entries, ended as before.
unfoldable pub IsSortOf : List RankingEntry → List RankingEntry → Type 0
IsSortOf es s =
    Sorted s
    × ((test : RankingEntry → Bool) → tally_by test s ≡ tally_by test es)
    × (all_ended s ≡ true)

sort_step :
    (e f : RankingEntry) (es fs gs : List RankingEntry)
    → Passed e es (f, fs)
    → IsSortOf fs gs
    → IsSortOf (e ∷ es) (f ∷ gs)
unfolding Passed IsSortOf Sorted all_ended
sort_step e f es fs gs (low, all, a, b, size, count) (sorted, same, ended) =
    let still = tally-BeforeAll f gs (same (comes_before f) ∙ BeforeAll-tally f fs all) in
    (
      (still, sorted),
      λ test. tally_more test e f es fs gs (same test) (count test),
      rw (a, ended) refl,
    )

sorted_none : IsSortOf [] []
unfolding IsSortOf Sorted all_ended
sorted_none = (tt, λ test. refl, refl)

-- Sorting players whose game has ended gives the same entries, none of which comes before one in front of it.
pub sort_entries-IsSortOf :
    (n : ℕ) (es : List RankingEntry)
    → n ≡ length es
    → all_ended es ≡ true
    → IsSortOf es (sort_entries n es)
unfolding sort_entries
sort_entries-IsSortOf zero [] l h = sorted_none
sort_entries-IsSortOf zero (e ∷ es) l h = absurd (omega (arith, l))
sort_entries-IsSortOf (suc n) [] l h = absurd (omega (arith, l))
sort_entries-IsSortOf (suc n) (e ∷ es) l h =
    let (ended_e, ended_es) = all_ended_split e es h in
    let r = exchange e es in
    let p = exchange_lem e es ended_e ended_es in
    sort_step e (r.0) es (r.1) (sort_entries n (r.1)) p (
      sort_entries-IsSortOf n (r.1) (omega (arith, Passed-length e es r p, l))
        (Passed-ended e es r p))
