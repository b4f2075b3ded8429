-- ===== src/ToosType/Sample.antt =====
-- A game for the tests: three sentences, one for each difficulty, and rooms of short phases.
use libcore.Base.{ℕ, zero, suc, ◌+◌, ◌≤◌, ◌≡◌, refl, arith, true, some, List, [], ◌∷◌, get_elem?}
use libcore.Judge.{Sentence}
use libcore.ToosType.Room.{GameProfile, PhaseProfile, Room, playing, waiting}
use libcore.ToosType.Spawn.{Deck, SpawnEngine}
use libcore.ToosType.Spawn.Cursor.{IsDeck}
use libcore.ToosType.Spawn.Engine.{IsEngine}
use libcore.ToosType.Context.{GameContext, PlayerState, no_player}

abbrev pub phase : PhaseProfile
phase = record { duration_ms = 20000; input_timeout_ms = 5000; correct_score = 10 }

abbrev pub profile : GameProfile
profile = record {
  countdown_ms = 3000;
  random_seed = 42;
  play_score_per_sec = 1;
  accuracy_score_multiplier = 1;
  phases = phase ∷ phase ∷ phase ∷ [];
}

abbrev pub pool : List Sentence
pool =
    record { id = 7; ko_text = 0 ∷ []; en_text = b'a' ∷ 0 ∷ [] }
    ∷ record { id = 8; ko_text = 0 ∷ []; en_text = b'b' ∷ 0 ∷ [] }
    ∷ record { id = 9; ko_text = 0 ∷ []; en_text = b'c' ∷ 0 ∷ [] }
    ∷ []

abbrev pub deck : ℕ → Deck
deck n = record {
  sequence_rng_state = 42;
  start = n;
  count = 1;
  sequence = some [];
  sequence_count = 0;
  sequence_capacity = 0;
}

abbrev pub engine : SpawnEngine
engine = record {
  rng_state = 42;
  loaded = true;
  base_pool = some pool;
  base_count = 3;
  decks = deck 0 ∷ deck 1 ∷ deck 2 ∷ [];
}

deck-IsDeck : (n : ℕ) → n + 1 ≤ 3 → IsDeck 3 (deck n)
deck-IsDeck n h = record {
  seq = [];
  epochs = 0;
  held = refl;
  full = refl;
  whole = omega arith;
  fits = omega arith;
  some_sentence = omega arith;
  few = omega arith;
  range = h;
  bounded = omega arith;
  entries = λ i l. absurd (omega (arith, l));
}

a_deck : (i : ℕ) (d : Deck) → get_elem? engine.decks i ≡ some d → IsDeck 3 d
a_deck zero d h = let same : d ≡ deck 0 = cc in rw (same) (deck-IsDeck 0 (omega arith))
a_deck (suc zero) d h = let same : d ≡ deck 1 = cc in rw (same) (deck-IsDeck 1 (omega arith))
a_deck (suc (suc zero)) d h = let same : d ≡ deck 2 = cc in rw (same) (deck-IsDeck 2 (omega arith))
a_deck (suc (suc (suc i))) d h = absurd cc

pub engine-IsEngine : IsEngine engine
engine-IsEngine = record {
  pool = pool;
  is_loaded = refl;
  has_pool = refl;
  counted = refl;
  three = refl;
  deck_IsDeck = a_deck;
}

abbrev pub room : Room
room = record {
  room_id = 1;
  profile = profile;
  state = waiting;
  language = 1;
  language_locked = true;
  host_player_no = 1;
  state_start_ms = 0;
  game_start_ms = 0;
  game_end_ms = 0;
  countdown_ends_at_ms = 0;
  current_phase = 0;
}

-- The room in a game from 4000 to 64000.
abbrev pub playing_room : Room
playing_room = record room {
  state = playing;
  game_start_ms = 4000;
  game_end_ms = 64000;
  countdown_ends_at_ms = 4000;
  current_phase = 1;
}

-- A player who is ready, in slot `n - 1`.
abbrev pub player : ℕ → PlayerState
player n = record no_player {
  occupied = true;
  player_no = n;
  join_seq = n;
  connected = true;
  ready = true;
  conn_ptr = 10 + n;
  active_sentence_id = 7;
  active_phase = 1;
  sentence_deadline_ms = 9000;
  correct_count = n;
}

abbrev pub players : List PlayerState
players =
    player 1 ∷ player 2 ∷ no_player ∷ no_player ∷ no_player ∷ no_player ∷ no_player ∷ no_player ∷ []

abbrev pub lobby : GameContext
lobby = record {
  room = room;
  spawn = engine;
  players = players;
  active_player_count = 2;
  next_join_seq = 3;
  last_tick_ms = 0;
  events = [];
}

abbrev pub game : GameContext
game = record lobby { room = playing_room }
