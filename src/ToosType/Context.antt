-- ===== src/ToosType/Context.antt =====
-- src/toos_type_game_context.c and include/toos_type_game_context.h: the lobby of a game. A pointer to a
-- connection is a number, NULL is 0; no pointer to a context is NULL. A pointer to a player is the
-- index of its slot. `events` are the events given to the dispatcher, in their order; the data base and
-- the log are left out.
pub mod OneSlot
pub mod Lobby
pub mod Play
pub mod Leave
pub mod Ranking
pub mod Tick
pub mod Start
pub mod Roster
mod Tests
use libcore.Base.{ℕ, zero, suc, ◌+◌, ◌-◌, ◌*◌, ◌%◌, ◌^◌, Bool, true, false, not, ◌||◌, ◌&&◌}
use libcore.Base.{
  Option, none, some, List, [], ◌∷◌, ◌++◌, ltb, leb, ◌==◌, if◌then◌else◌, get_or, set, replicate,
}
use libcore.Judge.{JudgeResult, uint32_max, is_language}
use libcore.ToosType.Room.{
  State, waiting, GameProfile, Room, uint64_max, total_duration_ms, set_duration_minutes,
  start_countdown,
}
use libcore.ToosType.Room.{init as init_room}
use libcore.ToosType.Spawn.{SpawnEngine}
use libcore.ToosType.Spawn.{init as init_spawn}

abbrev pub max_room_players : ℕ
max_room_players = 8

abbrev pub min_room_players : ℕ
min_room_players = 2

pub data FinishStatus : Type 0 where
  unfinished finished dnf : FinishStatus

pub record PlayerState : Type 0 where
  pub occupied : Bool
  pub player_no : ℕ
  pub join_seq : ℕ
  pub connected : Bool
  pub ready : Bool
  pub phase_cursor : List ℕ
  pub active_sentence_id : ℕ
  pub active_phase : ℕ
  pub sentence_spawn_ms : ℕ
  pub sentence_deadline_ms : ℕ
  pub awaiting_game_end : Bool
  pub correct_count : ℕ
  pub incorrect_count : ℕ
  pub expired_count : ℕ
  pub phase_correct : List ℕ
  pub correct_chars : ℕ
  pub played_ms : ℕ
  pub play_score : ℕ
  pub phase_score : ℕ
  pub accuracy_score : ℕ
  pub accuracy_x100 : ℕ
  pub total_score : ℕ
  pub wpm : ℕ
  pub finish_status : FinishStatus
  pub conn_ptr : ℕ

-- What `memset` leaves in a slot.
abbrev pub no_player : PlayerState
no_player = record {
  occupied = false;
  player_no = 0;
  join_seq = 0;
  connected = false;
  ready = false;
  phase_cursor = 0 ∷ 0 ∷ 0 ∷ [];
  active_sentence_id = 0;
  active_phase = 0;
  sentence_spawn_ms = 0;
  sentence_deadline_ms = 0;
  awaiting_game_end = false;
  correct_count = 0;
  incorrect_count = 0;
  expired_count = 0;
  phase_correct = 0 ∷ 0 ∷ 0 ∷ [];
  correct_chars = 0;
  played_ms = 0;
  play_score = 0;
  phase_score = 0;
  accuracy_score = 0;
  accuracy_x100 = 0;
  total_score = 0;
  wpm = 0;
  finish_status = unfinished;
  conn_ptr = 0;
}

pub record RankingEntry : Type 0 where
  pub rank : ℕ
  pub player_no : ℕ
  pub status : FinishStatus
  pub played_ms : ℕ
  pub play_score : ℕ
  pub phase_score : ℕ
  pub accuracy_score : ℕ
  pub accuracy_x100 : ℕ
  pub total_score : ℕ
  pub wpm : ℕ

pub record RoomConfig : Type 0 where
  pub room_id : ℕ
  pub state : State
  pub lang : ℕ
  pub locked : Bool
  pub host_no : ℕ
  pub game_duration_ms : ℕ
  pub connected_count : ℕ
  pub ready_count : ℕ
  pub all_ready : Bool

pub record Score : Type 0 where
  pub pno : ℕ
  pub sid : ℕ
  pub play : ℕ
  pub phase : ℕ
  pub acc_score : ℕ
  pub acc_x100 : ℕ
  pub total : ℕ
  pub wpm : ℕ

-- The texts of the error events.
pub data Message : Type 0 where
  game_already_started already_joined room_full language_locked_now not_host invalid_language :
      Message
  config_locked cannot_change_while_ready invalid_duration language_not_selected not_waiting :
      Message
  not_all_ready start_already_prepared deck_build_failed start_not_prepared : Message
  start_countdown_failed invalid_phase spawn_cursor_failed invalid_active_phase judge_internal :
      Message

-- An event, with its target connection (0 for all players) first where the code sets one.
pub data Event : Type 0 where
  join_ack : ℕ → ℕ → Bool → Event
  room_config : ℕ → RoomConfig → Event
  game_state : State → ℕ → ℕ → Event
  countdown_left : ℕ → Event
  phase_change : ℕ → ℕ → ℕ → Event
  sentence_drop : ℕ → ℕ → List ℕ → ℕ → Event
  sentence_result : ℕ → ℕ → JudgeResult → Event
  score_update : ℕ → Score → Event
  game_over : Event
  final_ranking : List RankingEntry → Event
  error_event : ℕ → Message → Event

pub record GameContext : Type 0 where
  pub room : Room
  pub spawn : SpawnEngine
  pub players : List PlayerState
  pub active_player_count : ℕ
  pub next_join_seq : ℕ
  pub last_tick_ms : ℕ
  pub events : List Event

pub emit_event : GameContext → Event → GameContext
emit_event ctx ev = record ctx { events = ctx.events ++ ev ∷ [] }

pub emit_error : GameContext → ℕ → Message → GameContext
emit_error ctx conn msg = emit_event ctx (error_event conn msg)

pub is_here : PlayerState → Bool
is_here p = p.occupied && p.connected

-- The counts of the loops, of players that are connected and of those of them that are ready.
pub count_here : List PlayerState → ℕ
count_here [] = 0
count_here (p ∷ ps) = if is_here p then suc (count_here ps) else count_here ps

pub count_ready : List PlayerState → ℕ
count_ready [] = 0
count_ready (p ∷ ps) = if is_here p && p.ready then suc (count_ready ps) else count_ready ps

pub room_config_of : GameContext → RoomConfig
room_config_of ctx =
    let connected_count = count_here ctx.players in
    let ready_count = count_ready ctx.players in
    record {
      room_id = ctx.room.room_id;
      state = ctx.room.state;
      lang = ctx.room.language;
      locked = ctx.room.language_locked;
      host_no = ctx.room.host_player_no;
      game_duration_ms = total_duration_ms ctx.room % 2 ^ 32;
      connected_count = connected_count;
      ready_count = ready_count;
      all_ready = leb min_room_players connected_count && connected_count == ready_count;
    }

pub emit_room_config : GameContext → ℕ → GameContext
emit_room_config ctx target = emit_event ctx (room_config target (room_config_of ctx))

-- The loop, from slot `i` on.
pub find_from : List PlayerState → ℕ → ℕ → Option ℕ
find_from [] conn i = none
find_from (p ∷ ps) conn i =
    let rest = find_from ps conn (i + 1) in
    if p.occupied && p.conn_ptr == conn then some i else rest

pub find_player_by_conn : GameContext → ℕ → Option ℕ
find_player_by_conn ctx conn = if conn == 0 then none else find_from ctx.players conn 0

-- The loop, with the least join number so far and the player who has it.
pub oldest_from : List PlayerState → ℕ → ℕ → ℕ
oldest_from [] min_join_seq oldest_no = oldest_no
oldest_from (p ∷ ps) min_join_seq oldest_no =
    let older = is_here p && ltb p.join_seq min_join_seq in
    oldest_from ps (if older then p.join_seq else min_join_seq)
      (if older then p.player_no else oldest_no)

pub recalculate_host : GameContext → GameContext
recalculate_host ctx = record ctx {
  room = record ctx.room { host_player_no = oldest_from ctx.players uint64_max 0 };
}

pub any_ready : List PlayerState → Bool
any_ready [] = false
any_ready (p ∷ ps) = let rest = any_ready ps in if is_here p && p.ready then true else rest

pub refresh_config_lock : GameContext → GameContext
refresh_config_lock ctx = record ctx {
  room = record ctx.room { language_locked = any_ready ctx.players };
}

pub reset_spawn_engine : GameContext → GameContext
reset_spawn_engine ctx = record ctx { spawn = init_spawn ctx.room.profile.random_seed }

pub reset_empty_room : GameContext → ℕ → GameContext
reset_empty_room ctx now_ms =
    let room : Room = record ctx.room {
      state = waiting;
      language = 0;
      language_locked = false;
      host_player_no = 0;
      state_start_ms = now_ms;
      game_start_ms = 0;
      game_end_ms = 0;
      countdown_ends_at_ms = 0;
      current_phase = 0;
    } in
    record ctx {
      players = replicate max_room_players no_player;
      active_player_count = 0;
      spawn = init_spawn ctx.room.profile.random_seed;
      room = (set_duration_minutes room 3).1;
    }

pub init : ℕ → GameProfile → GameContext
init room_id profile = record {
  room = init_room room_id profile;
  spawn = init_spawn profile.random_seed;
  players = replicate max_room_players no_player;
  active_player_count = 0;
  next_join_seq = 1;
  last_tick_ms = 0;
  events = [];
}

-- The first slot from `i` on that is not occupied.
pub free_from : List PlayerState → ℕ → Option ℕ
free_from [] i = none
free_from (p ∷ ps) i = let rest = free_from ps (i + 1) in if not p.occupied then some i else rest

pub is_waiting : State → Bool
is_waiting s = elim s [ waiting ↦ true | _ ↦ false ]

pub add_player : GameContext → ℕ → ℕ → GameContext
add_player ctx conn i =
    let p : PlayerState = record no_player {
      occupied = true;
      player_no = i + 1;
      join_seq = ctx.next_join_seq;
      connected = true;
      conn_ptr = conn;
    } in
    let joined = recalculate_host (record ctx {
      players = set ctx.players i p;
      next_join_seq = (ctx.next_join_seq + 1) % 2 ^ 64;
      active_player_count = (ctx.active_player_count + 1) % 2 ^ 32;
    }) in
    emit_room_config
      (emit_event joined (join_ack conn (i + 1) (i + 1 == joined.room.host_player_no))) 0

pub join : GameContext → ℕ → Bool × GameContext
join ctx conn =
    if conn == 0
    then (false, ctx)
    else if not (is_waiting ctx.room.state)
    then (false, emit_error ctx conn game_already_started)
    else elim (find_player_by_conn ctx conn) [
      | some i ↦ (false, emit_error ctx conn already_joined)
      | none ↦ elim (free_from ctx.players 0) [
        | none ↦ (false, emit_error ctx conn room_full)
        | some i ↦ (true, add_player ctx conn i)
      ]
    ]
