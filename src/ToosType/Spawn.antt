-- ===== src/ToosType/Spawn.antt =====
-- src/toos_type_spawn.c: the deck of sentences. The arrays of a difficulty (`sequence`, its count and
-- capacity, its random state, its range in the pool) are put together in a `Deck`, of which an engine
-- has three. No pointer argument is NULL. A draw that is rejected is drawn again, at most `rounds`
-- times here: `none` is a draw that takes longer. `allocated` says whether `realloc` gives memory, and
-- `fresh` is what new memory holds.
pub mod Rand
pub mod Shuffle
pub mod Cursor
pub mod Ensure
pub mod Engine
mod Tests
use libcore.Base.{ℕ, zero, suc, ◌+◌, ◌-◌, ◌*◌, ◌/◌, ◌%◌, ◌^◌, Bool, true, false, not, ◌||◌, ◌&&◌}
use libcore.Base.{Option, none, some, List, [], ◌∷◌, ◌++◌, ltb, leb, ◌==◌, if◌then◌else◌}
use libcore.Base.{length, get_elem?, get_or, set, replicate}
use libcore.Base.Tally.{swap}
use libcore.Judge.{Sentence}

abbrev pub difficulty_min : ℕ
difficulty_min = 1

abbrev pub difficulty_max : ℕ
difficulty_max = 3

abbrev pub size_max : ℕ
size_max = 2 ^ 64 - 1

pub difficulty_to_index : ℕ → Option ℕ
difficulty_to_index difficulty =
    if ltb difficulty difficulty_min || ltb difficulty_max difficulty
    then none
    else some (difficulty - difficulty_min)

-- The generator, on a `uint64_t`.
abbrev pub next_state : ℕ → ℕ
next_state state = (state * 6364136223846793005 + 1442695040888963407) % 2 ^ 64

abbrev pub rounds : ℕ
rounds = 3

-- The loop of `bounded_rand`: the number drawn and the state behind it.
pub draw : ℕ → ℕ → ℕ → ℕ → Option (ℕ × ℕ)
draw zero threshold bound state = none
draw (suc n) threshold bound state =
    let state' = next_state state in
    let r = state' / 2 ^ 32 in
    let again = draw n threshold bound state' in
    if ltb r threshold then again else some (r % bound, state')

pub bounded_rand : ℕ → ℕ → Option (ℕ × ℕ)
bounded_rand state bound =
    if bound == 0 || bound == 1
    then some (0, state)
    else draw rounds ((2 ^ 32 - bound) % bound) bound state

pub record Deck : Type 0 where
  pub sequence_rng_state : ℕ
  pub start : ℕ
  pub count : ℕ
  pub sequence : Option (List ℕ)
  pub sequence_count : ℕ
  pub sequence_capacity : ℕ

pub record SpawnEngine : Type 0 where
  pub rng_state : ℕ
  pub loaded : Bool
  pub base_pool : Option (List Sentence)
  pub base_count : ℕ
  pub decks : List Deck

abbrev pub no_deck : Deck
no_deck = record {
  sequence_rng_state = 0;
  start = 0;
  count = 0;
  sequence = none;
  sequence_count = 0;
  sequence_capacity = 0;
}

pub init : ℕ → SpawnEngine
init seed = record {
  rng_state = seed;
  loaded = false;
  base_pool = none;
  base_count = 0;
  decks = replicate 3 no_deck;
}

pub deinit : SpawnEngine → SpawnEngine
deinit e = init 0

-- The loop that writes the relative indices, `n` of them from `i` on.
pub identity_from : ℕ → ℕ → ℕ → List ℕ → List ℕ
identity_from zero i start seq = seq
identity_from (suc n) i start seq = identity_from n (i + 1) start (set seq (start + i) i)

-- The Fisher-Yates loop, from `i` down to 1.
pub shuffle : ℕ → ℕ → List ℕ → ℕ → Option (List ℕ × ℕ)
shuffle zero start seq state = some (seq, state)
shuffle (suc i) start seq state = elim (bounded_rand state (suc i + 1)) [
  | none ↦ none
  | some (j, state') ↦ shuffle i start (swap seq (start + suc i) (start + j)) state'
]

-- `none` is false, which changes nothing.
pub append_epoch : Deck → Option Deck
append_epoch d = if d.count == 0 then none else elim d.sequence [
  | none ↦ none
  | some seq ↦
      let end = d.sequence_count + d.count in
      if ltb (size_max - d.count) d.sequence_count
      then none
      else if ltb d.sequence_capacity end
      then none
      else elim (shuffle (d.count - 1) d.sequence_count
          (identity_from d.count 0 d.sequence_count seq) d.sequence_rng_state) [
            | none ↦ none
            | some (seq', state') ↦ some (record d {
              sequence = some seq';
              sequence_rng_state = state';
              sequence_count = end;
            })
          ]
]

-- The loop that appends epochs, at most `n` of them.
pub append_until : ℕ → Deck → ℕ → Bool × Deck
append_until zero d needed = (leb needed d.sequence_count, d)
append_until (suc n) d needed =
    if leb needed d.sequence_count
    then (true, d)
    else elim (append_epoch d) [ none ↦ (false, d) | some d' ↦ append_until n d' needed ]

-- A larger array, where the capacity asks for one.
pub ensure_capacity : Bool → ℕ → Deck → List ℕ → ℕ → Option Deck
ensure_capacity allocated fresh d seq needed =
    if leb needed d.sequence_capacity
    then some d
    else if not allocated
    then none
    else some (record d {
      sequence = some (seq ++ replicate (needed - d.sequence_capacity) fresh);
      sequence_capacity = needed;
    })

pub ensure_deck : Bool → ℕ → Deck → ℕ → Bool × Deck
ensure_deck allocated fresh d cursor = if d.count == 0 then (false, d) else elim d.sequence [
  | none ↦ (false, d)
  | some seq ↦
      if ltb cursor d.sequence_count
      then (true, d)
      else let epoch_index = cursor / d.count in
        if epoch_index == size_max
        then (false, d)
        else if ltb (size_max / d.count) (epoch_index + 1)
        then (false, d)
        else let needed = (epoch_index + 1) * d.count in
          if ltb (size_max / 4) needed
          then (false, d)
          else elim (ensure_capacity allocated fresh d seq needed) [
            | none ↦ (false, d)
            | some d' ↦ append_until (epoch_index + 1) d' needed
          ]
]

pub ensure_cursor : Bool → ℕ → SpawnEngine → ℕ → ℕ → Bool × SpawnEngine
ensure_cursor allocated fresh e difficulty cursor =
    if not e.loaded then (false, e) else elim (difficulty_to_index difficulty) [
      | none ↦ (false, e)
      | some i ↦ elim (get_elem? e.decks i) [
        | none ↦ (false, e)
        | some d ↦
            let (ok, d') = ensure_deck allocated fresh d cursor in
            (ok, record e { decks = set e.decks i d' })
      ]
    ]

pub deck_sentence : List Sentence → ℕ → Deck → ℕ → Option Sentence
deck_sentence pool base_count d cursor = elim d.sequence [
  | none ↦ none
  | some seq ↦
      if leb d.sequence_count cursor
      then none
      else let relative_index = get_or seq cursor 0 in
        if leb d.count relative_index
        then none
        else if leb base_count (d.start + relative_index)
        then none
        else get_elem? pool (d.start + relative_index)
]

pub sentence_at : SpawnEngine → ℕ → ℕ → Option Sentence
sentence_at e difficulty cursor = if not e.loaded then none else elim e.base_pool [
  | none ↦ none
  | some pool ↦ elim (difficulty_to_index difficulty) [
    | none ↦ none
    | some i ↦ elim (get_elem? e.decks i) [
      | none ↦ none
      | some d ↦ deck_sentence pool e.base_count d cursor
    ]
  ]
]
