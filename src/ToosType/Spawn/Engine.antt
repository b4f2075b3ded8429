-- ===== src/ToosType/Spawn/Engine.antt =====
-- src/toos_type_spawn.c: a loaded engine, whose cursors all have their sentences.
use libcore.Base.{
  ℕ, zero, suc, ◌+◌, ◌-◌, ◌^◌, ◌≤◌, ◌<◌, ◌≡◌, refl, ◌∙◌, arith, Bool, true, false, some, leb, inl,
  inr, ◌⊎◌, List, [], ◌∷◌,
}
use libcore.Base.{length, get_or, get_elem?, set, length-set, leb-false}
use libcore.Judge.{Sentence}
use libcore.ToosType.Spawn.{
  Deck, SpawnEngine, ensure_deck, ensure_cursor, deck_sentence, sentence_at, difficulty_to_index,
}
use libcore.ToosType.Spawn.Cursor.{IsDeck}
use libcore.ToosType.Spawn.Ensure.{Ensured, ensure_deck_lem}

pub record IsEngine (e : SpawnEngine) : Type 0 where
  pub pool : List Sentence
  pub is_loaded : e.loaded ≡ true
  pub has_pool : e.base_pool ≡ some pool
  pub counted : e.base_count ≡ length pool
  pub three : length e.decks ≡ 3
  pub deck_IsDeck : (i : ℕ) (d : Deck) → get_elem? e.decks i ≡ some d → IsDeck (length pool) d

get_elem?_found :
    (xs : List Sentence) (i : ℕ) → i < length xs → (s : Sentence) × (get_elem? xs i ≡ some s)
get_elem?_found [] i h = absurd (omega arith)
get_elem?_found (x ∷ xs) zero h = (x, refl)
get_elem?_found (x ∷ xs) (suc i) h = get_elem?_found xs i (omega arith)

-- A cursor below the count of a deck has its sentence in the pool.
deck_sentence_found :
    (pool : List Sentence) (d : Deck) (v : IsDeck (length pool) d) (cursor : ℕ)
    → cursor < d.sequence_count
    → (s : Sentence) × (deck_sentence pool (length pool) d cursor ≡ some s)
unfolding deck_sentence
deck_sentence_found pool d v cursor h =
    let entry = v.entries cursor h in
    let index = d.start + get_or v.seq cursor 0 in
    let inside : index < length pool = omega (arith, entry, v.range) in
    let (s, found) = get_elem?_found pool index inside in
    let here : leb d.sequence_count cursor ≡ false = leb-false d.sequence_count cursor h in
    let low : leb d.count (get_or v.seq cursor 0) ≡ false =
      leb-false d.count (get_or v.seq cursor 0) entry in
    let known : leb (length pool) index ≡ false = leb-false (length pool) index inside in
    (s, rw (v.held, here, low, known) found)

index_known :
    (difficulty : ℕ)
    → 1 ≤ difficulty
    → difficulty ≤ 3
    → difficulty_to_index difficulty ≡ some (difficulty - 1)
unfolding difficulty_to_index
index_known difficulty l m = ground arith

-- What ensuring a cursor gives: the engine stays valid; the sentence at the cursor is there, or the call
-- failed without memory or for a cursor from 2^60 on.
unfoldable pub Served : Bool → ℕ → ℕ → Bool × SpawnEngine → Type 0
Served allocated difficulty cursor result =
    IsEngine (result.1)
    × (((result.0 ≡ false) × ((allocated ≡ false) ⊎ (2 ^ 60 ≤ cursor)))
        ⊎ ((result.0 ≡ true)
            × ((s : Sentence) × (sentence_at (result.1) difficulty cursor ≡ some s))))

find_deck : (ds : List Deck) (i : ℕ) → i < length ds → (d : Deck) × (get_elem? ds i ≡ some d)
find_deck [] i h = absurd (omega arith)
find_deck (d ∷ ds) zero h = (d, refl)
find_deck (d ∷ ds) (suc i) h = find_deck ds i (omega arith)

get_elem?-set_self :
    (ds : List Deck) (i : ℕ) (d : Deck) → i < length ds → get_elem? (set ds i d) i ≡ some d
get_elem?-set_self [] i d h = absurd (omega arith)
get_elem?-set_self (x ∷ ds) zero d h = refl
get_elem?-set_self (x ∷ ds) (suc i) d h = get_elem?-set_self ds i d (omega arith)

-- A deck of an array in which one was replaced.
set_cases :
    (ds : List Deck) (i j : ℕ) (d x : Deck)
    → get_elem? (set ds i d) j ≡ some x
    → (x ≡ d) ⊎ (get_elem? ds j ≡ some x)
set_cases [] i j d x h = inr h
set_cases (y ∷ ds) zero zero d x h = inl cc
set_cases (y ∷ ds) zero (suc j) d x h = inr h
set_cases (y ∷ ds) (suc i) zero d x h = inr h
set_cases (y ∷ ds) (suc i) (suc j) d x h = set_cases ds i j d x h

-- The engine after one of its decks was replaced by a deck of the same pool.
replaced :
    (e : SpawnEngine) (v : IsEngine e) (i : ℕ) (d : Deck)
    → IsDeck (length v.pool) d
    → IsEngine (record e { decks = set e.decks i d })
replaced e v i d w = record {
  pool = v.pool;
  is_loaded = v.is_loaded;
  has_pool = v.has_pool;
  counted = v.counted;
  three = length-set e.decks i d ∙ v.three;
  deck_IsDeck = λ j x found. elim (set_cases e.decks i j d x found) [
    | inl same ↦ rw (same) w
    | inr old ↦ v.deck_IsDeck j x old
  ];
}

ensure_cursor_lem :
    (allocated : Bool) (fresh : ℕ) (e : SpawnEngine) (difficulty i cursor : ℕ) (d : Deck)
    → e.loaded ≡ true
    → difficulty_to_index difficulty ≡ some i
    → get_elem? e.decks i ≡ some d
    → ensure_cursor allocated fresh e difficulty cursor ≡ (
      (ensure_deck allocated fresh d cursor).0,
      record e { decks = set e.decks i (ensure_deck allocated fresh d cursor).1 },
    )
unfolding ensure_cursor
ensure_cursor_lem allocated fresh e difficulty i cursor d l index found = simp (l, index, found)

sentence_at_lem :
    (e : SpawnEngine) (v : IsEngine e) (difficulty i cursor : ℕ) (d : Deck)
    → difficulty_to_index difficulty ≡ some i
    → get_elem? e.decks i ≡ some d
    → cursor < d.sequence_count
    → (s : Sentence) × (sentence_at e difficulty cursor ≡ some s)
unfolding sentence_at
sentence_at_lem e v difficulty i cursor d index found low =
    let (s, there) = deck_sentence_found v.pool d (v.deck_IsDeck i d found) cursor low in
    (s, rw (v.is_loaded, v.has_pool, index, found, v.counted) there)

-- In a loaded engine, ensuring a cursor of a difficulty keeps the engine valid and makes the sentence at the
-- cursor available; it fails only when memory is refused or for a cursor from 2^60 on.
pub ensure_cursor-sentence_at :
    (allocated : Bool) (fresh : ℕ) (e : SpawnEngine) (difficulty cursor : ℕ)
    → IsEngine e
    → 1 ≤ difficulty
    → difficulty ≤ 3
    → Served allocated difficulty cursor (ensure_cursor allocated fresh e difficulty cursor)
unfolding Served Ensured
ensure_cursor-sentence_at allocated fresh e difficulty cursor v l m =
    let i = difficulty - 1 in
    let index = index_known difficulty l m in
    let (d, found) = find_deck e.decks i (omega (arith, v.three)) in
    let r = ensure_deck allocated fresh d cursor in
    let (w, same, start, outcome) =
      ensure_deck_lem allocated fresh (length v.pool) d (v.deck_IsDeck i d found) cursor in
    let v' = replaced e v i (r.1) w in
    let here = get_elem?-set_self e.decks i (r.1) (omega (arith, v.three)) in
    rw (ensure_cursor_lem allocated fresh e difficulty i cursor d v.is_loaded index found) (
      v',
      elim outcome [
        | inl failed ↦ inl failed
        | inr (ok, low) ↦ inr (ok, sentence_at_lem _ v' difficulty i cursor (r.1) index here low)
      ],
    )
