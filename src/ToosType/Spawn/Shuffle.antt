-- ===== src/ToosType/Spawn/Shuffle.antt =====
-- src/toos_type_spawn.c, `append_epoch`: an epoch deals every sentence of a difficulty once.
use libcore.Base.{
  ℕ, zero, suc, ◌+◌, ◌-◌, ◌≤◌, ◌<◌, ◌≡◌, refl, sym, ap, ◌∙◌, arith, Option, some, ltb,
  if◌then◌else◌, List, [], ◌∷◌, ◌++◌,
}
use libcore.Base.{
  length, get_or, set, take, drop, length-set, take-set_ge, take-set_end, take-append_exact,
  take-append-drop, length-take, append_assoc, append-nil,
}
use libcore.Base.{drop-append_exact}
use libcore.Base.Windows.{drop-take, drop-drop, take-take}
use libcore.Base.Tally.{tally, swap, tally-swap, length-swap, tally-append}
use libcore.ToosType.Spawn.{identity_from, shuffle}
use libcore.ToosType.Spawn.Rand.{Drawn, bounded_rand_ends}

-- The numbers from `i` on, `n` of them.
pub range_from : ℕ → ℕ → List ℕ
range_from i zero = []
range_from i (suc n) = i ∷ range_from (i + 1) n

length-range_from : (i n : ℕ) → length (range_from i n) ≡ n
unfolding range_from
length-range_from i zero = refl
length-range_from i (suc n) = ap suc (length-range_from (i + 1) n)

pub tally-range_from :
    (t i n : ℕ) → tally t (range_from i n) ≡ (if ltb t i then 0 else if ltb t (i + n) then 1 else 0)
unfolding range_from tally
tally-range_from t i zero = ground arith
tally-range_from t i (suc n) = let ih = tally-range_from t (i + 1) n in ground arith

drop-set_lt : (n i : ℕ) (xs : List ℕ) (v : ℕ) → i < n → drop n (set xs i v) ≡ drop n xs
drop-set_lt zero i xs v h = absurd (omega arith)
drop-set_lt (suc n) i [] v h = refl
drop-set_lt (suc n) zero (x ∷ xs) v h = refl
drop-set_lt (suc n) (suc i) (x ∷ xs) v h = drop-set_lt n i xs v (omega arith)

length-identity_from : (n i s : ℕ) (seq : List ℕ) → length (identity_from n i s seq) ≡ length seq
unfolding identity_from
length-identity_from zero i s seq = refl
length-identity_from (suc n) i s seq =
    length-identity_from n (i + 1) s (set seq (s + i) i) ∙ length-set seq (s + i) i

take-identity_from :
    (n i s : ℕ) (seq : List ℕ)
    → s + i + n ≤ length seq
    → take (s + i + n) (identity_from n i s seq) ≡ take (s + i) seq ++ range_from i n
unfolding identity_from range_from
take-identity_from zero i s seq h =
    ap (λ k. take k seq) {x = s + i + 0} {y = s + i} (omega arith)
    ∙ sym (append-nil (take (s + i) seq))
take-identity_from (suc n) i s seq h =
    let size = length-set seq (s + i) i in
    let ih = take-identity_from n (i + 1) s (set seq (s + i) i) (omega arith) in
    let last = take-set_end (s + i) seq i (omega arith) in
    let written = set seq (s + i) i in
    let rest = range_from (i + 1) n in
    ap (λ k. take k (identity_from n (i + 1) s written)) {x = s + i + suc n} {y = s + (i + 1) + n}
      (omega arith)
    ∙ ih
    ∙ ap (λ k. take k written ++ rest) {x = s + (i + 1)} {y = suc (s + i)} (omega arith)
    ∙ ap (λ l. l ++ rest) last
    ∙ append_assoc (take (s + i) seq) (i ∷ []) rest

drop-identity_from :
    (n i s e : ℕ) (seq : List ℕ) → s + i + n ≤ e → drop e (identity_from n i s seq) ≡ drop e seq
unfolding identity_from
drop-identity_from zero i s e seq h = refl
drop-identity_from (suc n) i s e seq h =
    drop-identity_from n (i + 1) s e (set seq (s + i) i) (omega arith)
    ∙ drop-set_lt e (s + i) seq i (omega arith)

-- The same list, but for the order between two positions.
pub record Rearranged (s e : ℕ) (xs ys : List ℕ) : Type 0 where
  pub size : length ys ≡ length xs
  pub before : take s ys ≡ take s xs
  pub behind : drop e ys ≡ drop e xs
  pub content : (t : ℕ) → tally t ys ≡ tally t xs

Rearranged-trans :
    {s e : ℕ} {xs ys zs : List ℕ}
    → Rearranged s e xs ys
    → Rearranged s e ys zs
    → Rearranged s e xs zs
Rearranged-trans a b = record {
  size = b.size ∙ a.size;
  before = b.before ∙ a.before;
  behind = b.behind ∙ a.behind;
  content = λ t. b.content t ∙ a.content t;
}

swap-Rearranged :
    (s e : ℕ) (xs : List ℕ) (i j : ℕ)
    → s ≤ i
    → s ≤ j
    → i < e
    → j < e
    → e ≤ length xs
    → Rearranged s e xs (swap xs i j)
unfolding swap
swap-Rearranged s e xs i j a b c d l = record {
  size = length-swap xs i j;
  before =
      take-set_ge s j (set xs i (get_or xs j 0)) (get_or xs i 0) b
      ∙ take-set_ge s i xs (get_or xs j 0) a;
  behind =
      drop-set_lt e j (set xs i (get_or xs j 0)) (get_or xs i 0) d
      ∙ drop-set_lt e i xs (get_or xs j 0) c;
  content = λ t. tally-swap t xs i j (omega arith) (omega arith);
}

-- Shuffling ends, and rearranges the window.
pub Shuffled : ℕ → ℕ → List ℕ → Option (List ℕ × ℕ) → Type 0
Shuffled s e seq result =
    (seq' : List ℕ) × (state : ℕ) × (result ≡ some (seq', state)) × Rearranged s e seq seq'

pub shuffle_ends :
    (i s n : ℕ) (seq : List ℕ) (state : ℕ)
    → i < n
    → n ≤ 1024
    → s + n ≤ length seq
    → Shuffled s (s + n) seq (shuffle i s seq state)
unfolding shuffle Shuffled Drawn
shuffle_ends zero s n seq state h k l =
    (seq, state, refl, record { size = refl; before = refl; behind = refl; content = λ t. refl })
shuffle_ends (suc i) s n seq state h k l =
    let (j, state', drawn, small) =
      bounded_rand_ends state (suc i + 1) (omega arith) (omega arith) in
    let one =
      swap-Rearranged s (s + n) seq (s + suc i) (s + j) (omega arith) (omega arith) (omega arith)
        (omega arith) l in
    let (seq', state'', rest, more) =
      shuffle_ends i s n (swap seq (s + suc i) (s + j)) state' (omega arith) k
        (omega (arith, one.size)) in
    (seq', state'', rw (shuffle, drawn) rest, Rearranged-trans one more)

-- One epoch: the window from `s` on, `n` long, of what `append_epoch` makes of a sequence.
unfoldable pub Dealt : ℕ → ℕ → List ℕ → Option (List ℕ × ℕ) → Type 0
Dealt s n seq result =
    (seq' : List ℕ) × (state : ℕ) × (result ≡ some (seq', state))
    × (length seq' ≡ length seq)
    × (take s seq' ≡ take s seq)
    × ((t : ℕ) → tally t (take n (drop s seq')) ≡ (if ltb t n then 1 else 0))

-- The parts of a list in front of a window, in it and behind it have the count of the list.
tally-parts :
    (t s n : ℕ) (xs : List ℕ)
    → tally t xs ≡ tally t (take s xs) + (tally t (take n (drop s xs)) + tally t (drop (s + n) xs))
tally-parts t s n xs =
    let one = ap (tally t) (sym (take-append-drop s xs)) ∙ tally-append t (take s xs) (drop s xs) in
    let two =
      ap (tally t) (sym (take-append-drop n (drop s xs)))
      ∙ tally-append t (take n (drop s xs)) (drop n (drop s xs)) in
    let last = ap (tally t) (drop-drop n s xs) in omega (arith, one, two, last)

-- Two lists that differ in the order within a window have the same count there.
tally-window :
    (s n : ℕ) {xs ys : List ℕ} (t : ℕ)
    → Rearranged s (s + n) xs ys
    → tally t (take n (drop s ys)) ≡ tally t (take n (drop s xs))
tally-window s n {xs} {ys} t r =
    let one = tally-parts t s n xs in
    let two = tally-parts t s n ys in
    let all = r.content t in
    let before = ap (tally t) r.before in
    let behind = ap (tally t) r.behind in omega (arith, one, two, all, before, behind)

-- Where a list begins with `front`, `n` more elements are `mid`.
window-mid :
    (s n : ℕ) (xs front mid : List ℕ)
    → length front ≡ s
    → take (s + n) xs ≡ front ++ mid
    → (take s xs ≡ front) × (take n (drop s xs) ≡ mid)
window-mid s n xs front mid l e = (
  sym (take-take s (s + n) xs (omega arith))
      ∙ ap (take s) e
      ∙ take-append_exact s front mid (sym l),
  ap (λ k. take k (drop s xs)) {x = n} {y = s + n - s} (omega arith)
      ∙ sym (drop-take s (s + n) xs)
      ∙ ap (drop s) e
      ∙ drop-append_exact s front mid (sym l),
)

-- From any state of the generator, the epoch that is written behind `s` numbers keeps those, and has
-- each number below `n` once and no other.
pub epoch_deals :
    (s n : ℕ) (seq : List ℕ) (state : ℕ)
    → 0 < n
    → n ≤ 1024
    → s + n ≤ length seq
    → Dealt s n seq (shuffle (n - 1) s (identity_from n 0 s seq) state)
unfolding Dealt Shuffled
epoch_deals s n seq state l m k =
    let filled = identity_from n 0 s seq in
    let size = length-identity_from n 0 s seq in
    let front : take (s + n) filled ≡ take s seq ++ range_from 0 n =
      ap (λ k. take k filled) {x = s + n} {y = s + 0 + n} (omega arith)
      ∙ take-identity_from n 0 s seq (omega arith)
      ∙ ap (λ k. take k seq ++ range_from 0 n) {x = s + 0} {y = s} (omega arith) in
    let mid =
      window-mid s n filled (take s seq) (range_from 0 n) (length-take s seq ∙ omega arith) front in
    let (seq', state', done, same) =
      shuffle_ends (n - 1) s n filled state (omega arith) m (omega arith) in
    (
      seq',
      state',
      done,
      same.size ∙ size,
      same.before ∙ mid.0,
      λ t. tally-window s n t same ∙ ap (tally t) (mid.1) ∙ tally-range_from t 0 n ∙ ground arith,
    )
