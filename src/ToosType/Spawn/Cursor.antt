-- ===== src/ToosType/Spawn/Cursor.antt =====
-- src/toos_type_spawn.c: what holds of a deck, and that a cursor that was ensured has its sentence.
use libcore.Base.{
  ℕ, zero, suc, ◌+◌, ◌-◌, ◌*◌, ◌/◌, ◌≤◌, ◌<◌, ◌≡◌, refl, sym, ap, ◌∙◌, arith, false, Option, some,
  ltb, ◌==◌, if◌then◌else◌, Bool-cases, inl, inr, List, [], ◌∷◌,
}
use libcore.Base.{length, get_or, take, drop, length-take, length-drop, ltb-false}
use libcore.Base.Tally.{tally, tally-get_or}
use libcore.ToosType.Spawn.{Deck, append_epoch, size_max}
use libcore.ToosType.Spawn.Shuffle.{Dealt, epoch_deals}

-- A deck of a pool: whole epochs, whose entries are indices into the range of the difficulty.
pub record IsDeck (pool : ℕ) (d : Deck) : Type 0 where
  pub seq : List ℕ
  pub epochs : ℕ
  pub held : d.sequence ≡ some seq
  pub full : length seq ≡ d.sequence_capacity
  pub whole : d.sequence_count ≡ epochs * d.count
  pub fits : d.sequence_count ≤ d.sequence_capacity
  pub some_sentence : 0 < d.count
  pub few : d.count ≤ 1000
  pub range : d.start + d.count ≤ pool
  pub bounded : d.sequence_capacity ≤ size_max / 4
  pub entries : (i : ℕ) → i < d.sequence_count → get_or seq i 0 < d.count

get_or-take : (n i : ℕ) (xs : List ℕ) → i < n → get_or (take n xs) i 0 ≡ get_or xs i 0
get_or-take zero i xs h = absurd (omega arith)
get_or-take (suc n) i [] h = refl
get_or-take (suc n) zero (x ∷ xs) h = refl
get_or-take (suc n) (suc i) (x ∷ xs) h = get_or-take n i xs (omega arith)

get_or-drop : (n i : ℕ) (xs : List ℕ) → get_or (drop n xs) i 0 ≡ get_or xs (n + i) 0
get_or-drop zero i xs = ap (λ k. get_or xs k 0) (omega arith)
get_or-drop (suc n) i [] = refl
get_or-drop (suc n) i (x ∷ xs) =
    get_or-drop n i xs
    ∙ ap (λ k. get_or (x ∷ xs) k 0) {x = suc (n + i)} {y = suc n + i} (omega arith)

-- An entry of a window that holds only numbers below `n`.
window_entry :
    (s n i : ℕ) (xs : List ℕ)
    → s + n ≤ length xs
    → ((t : ℕ) → tally t (take n (drop s xs)) ≡ (if ltb t n then 1 else 0))
    → i < n
    → get_or xs (s + i) 0 < n
window_entry s n i xs l only h =
    let w = take n (drop s xs) in
    let size : length w ≡ n = length-take n (drop s xs) ∙ omega (arith, length-drop s xs) in
    let same : get_or w i 0 ≡ get_or xs (s + i) 0 =
      get_or-take n i (drop s xs) h ∙ get_or-drop s i xs in
    let seen = tally-get_or w i 0 (omega (arith, size)) in
    let count = only (get_or w i 0) in ground arith

-- The entries in front of an epoch and in it.
entry_after :
    (s n i : ℕ) (old new : List ℕ)
    → s + n ≤ length new
    → take s new ≡ take s old
    → ((t : ℕ) → tally t (take n (drop s new)) ≡ (if ltb t n then 1 else 0))
    → ((k : ℕ) → k < s → get_or old k 0 < n)
    → i < s + n
    → get_or new i 0 < n
entry_after s n i old new l before only entries h = elim (Bool-cases (ltb i s)) [
  | inl e ↦
      let low : i < s = ground arith in
      let same : get_or new i 0 ≡ get_or old i 0 =
        sym (get_or-take s i new low) ∙ ap (λ xs. get_or xs i 0) before ∙ get_or-take s i old low in
      omega (arith, same, entries i low)
  | inr e ↦
      let at_end : i ≡ s + (i - s) = ground arith in
      let inside = window_entry s n (i - s) new l only (ground arith) in rw (at_end) inside
]

suc_mul : (e c : ℕ) → e * c + c ≡ suc e * c
suc_mul e c = omega arith

-- An epoch is always appended where the array has room for it.
unfoldable pub Appended : ℕ → ℕ → Deck → Option Deck → Type 0
Appended pool epochs d result =
    (d' : Deck) × (result ≡ some d')
    × (v' : IsDeck pool d') × (v'.epochs ≡ suc epochs)
    × (d'.sequence_count ≡ d.sequence_count + d.count)
    × (d'.count ≡ d.count)
    × (d'.sequence_capacity ≡ d.sequence_capacity)
    × (d'.start ≡ d.start)

pub append_epoch_lem :
    (pool : ℕ) (d : Deck) (v : IsDeck pool d)
    → d.sequence_count + d.count ≤ d.sequence_capacity
    → Appended pool v.epochs d (append_epoch d)
unfolding append_epoch Appended Dealt
append_epoch_lem pool d v room =
    let (seq', state', done, size, before, only) =
      epoch_deals d.sequence_count d.count v.seq d.sequence_rng_state v.some_sentence
        (omega (arith, v.few)) (omega (arith, v.full)) in
    let d' : Deck = record d {
      sequence = some seq';
      sequence_rng_state = state';
      sequence_count = d.sequence_count + d.count;
    } in
    let some_count : (d.count == 0) ≡ false = ground (arith, v.some_sentence) in
    let small : ltb (size_max - d.count) d.sequence_count ≡ false =
      ltb-false (size_max - d.count) d.sequence_count (omega (arith, v.bounded, v.few, room)) in
    let fit : ltb d.sequence_capacity (d.sequence_count + d.count) ≡ false =
      ltb-false d.sequence_capacity (d.sequence_count + d.count) room in
    let entry : (i : ℕ) → i < d.sequence_count + d.count → get_or seq' i 0 < d.count = λ i h.
      entry_after d.sequence_count d.count i v.seq seq' (omega (arith, v.full, size)) before only
        v.entries h in
    (
      d',
      rw (append_epoch, some_count, v.held, small, fit, done) refl,
      record {
        seq = seq';
        epochs = suc v.epochs;
        held = refl;
        full = size ∙ v.full;
        whole = ap (λ n. n + d.count) v.whole ∙ suc_mul v.epochs d.count;
        fits = room;
        some_sentence = v.some_sentence;
        few = v.few;
        range = v.range;
        bounded = v.bounded;
        entries = entry;
      },
      refl,
      refl,
      refl,
      refl,
      refl,
    )
