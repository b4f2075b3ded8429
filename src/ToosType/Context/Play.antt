-- ===== src/ToosType/Context/Play.antt =====
-- src/toos_type_game_context.c: what happens in a game: sentences, submissions, scores, players who leave.
-- `allocated` and `fresh` say what `realloc` gives, as in Spawn. Fields that are `uint32_t` are reduced
-- where an operation can exceed them, and so are differences and products of `uint64_t`.
pub mod Scores
pub mod Issued
pub mod Submitted
use libcore.Base.{ℕ, zero, suc, ◌+◌, ◌-◌, ◌*◌, ◌/◌, ◌%◌, ◌^◌, Bool, true, false, not, ◌||◌, ◌&&◌}
use libcore.Base.{
  Option, none, some, List, [], ◌∷◌, ◌++◌, ltb, leb, ◌==◌, if◌then◌else◌, get_or, set,
}
use libcore.Judge.{
  Sentence, JudgeResult, correct, incorrect, expired, stale, error, uint32_max, expected_text,
  count_chars,
}
use libcore.Judge.{submit as judge}
use libcore.ToosType.Room.{
  State, waiting, countdown, playing, Room, max_phases, phase_at, phase_profile,
  sentence_timeout_ms, cancel_countdown,
}
use libcore.ToosType.Spawn.{SpawnEngine, ensure_cursor, sentence_at}
use libcore.ToosType.Context.{
  GameContext, PlayerState, no_player, Event, Score, FinishStatus, unfinished, dnf, Message,
  sentence_drop, sentence_result, score_update, game_state, invalid_phase, spawn_cursor_failed,
  invalid_active_phase, judge_internal, error_event, emit_event, emit_error, emit_room_config,
  is_here, find_player_by_conn, recalculate_host, refresh_config_lock, reset_spawn_engine,
  reset_empty_room,
}

-- A difference of `uint64_t`.
pub minus64 : ℕ → ℕ → ℕ
minus64 a b = (a + 2 ^ 64 - b) % 2 ^ 64

-- `x > UINT32_MAX ? UINT32_MAX : (uint32_t)x`.
pub saturated : ℕ → ℕ
saturated x = if ltb uint32_max x then uint32_max else x

unfoldable pub is_unfinished : PlayerState → Bool
is_unfinished p = elim p.finish_status [ unfinished ↦ true | _ ↦ false ]

pub is_running : State → Bool
is_running s = elim s [ playing ↦ true | countdown ↦ true | _ ↦ false ]

pub played_until : Room → PlayerState → ℕ → ℕ
played_until room p now_ms =
    let played_ms = now_ms - room.game_start_ms in
    let game_ms = minus64 room.game_end_ms room.game_start_ms in
    if not (is_unfinished p && is_running room.state)
    then p.played_ms
    else if not (ltb room.game_start_ms now_ms)
    then p.played_ms
    else if ltb game_ms played_ms
    then game_ms
    else played_ms

pub accuracy_of : PlayerState → ℕ
accuracy_of p =
    let attempts = p.correct_count + p.incorrect_count + p.expired_count in
    if ltb 0 attempts then p.correct_count * 10000 / attempts else 0

unfoldable pub update_player_stats : Room → PlayerState → ℕ → PlayerState
update_player_stats room p now_ms =
    let played_ms = played_until room p now_ms in
    let play_score = saturated (played_ms * room.profile.play_score_per_sec % 2 ^ 64 / 1000) in
    let accuracy_x100 = accuracy_of p in
    let accuracy_score = saturated (accuracy_x100 * room.profile.accuracy_score_multiplier / 100) in
    let total_score = saturated (play_score + p.phase_score + accuracy_score) in
    let wpm = if ltb 0 played_ms then saturated (p.correct_chars * 12000 / played_ms) else 0 in
    record p {
      played_ms = played_ms;
      play_score = play_score;
      accuracy_x100 = accuracy_x100;
      accuracy_score = accuracy_score;
      total_score = total_score;
      wpm = wpm;
    }

-- A player without a sentence.
unfoldable pub cleared : PlayerState → PlayerState
cleared p = record p {
  active_sentence_id = 0;
  active_phase = 0;
  sentence_spawn_ms = 0;
  sentence_deadline_ms = 0;
}

pub await_end : PlayerState → PlayerState
await_end p = record (cleared p) { awaiting_game_end = true }

unfoldable pub put_player : GameContext → ℕ → PlayerState → GameContext
put_player ctx i p = record ctx { players = set ctx.players i p }

-- The sentence at a cursor that was ensured, given to the player.
pub drop_sentence : Room → SpawnEngine → PlayerState → ℕ → ℕ → ℕ → ℕ → PlayerState × List Event
drop_sentence room spawn p phase cursor timeout now_ms = elim (sentence_at spawn phase cursor) [
  | none ↦ (await_end p, [])
  | some sent ↦ (
    record p {
      active_sentence_id = sent.id;
      active_phase = phase;
      sentence_spawn_ms = now_ms;
      sentence_deadline_ms = (now_ms + timeout) % 2 ^ 64;
    },
    sentence_drop p.conn_ptr sent.id (expected_text sent room.language) timeout ∷ [],
  )
]

-- `issue_next_sentence` on what it reads and writes: the room, the engine, the player.
pub issue : Bool → ℕ → Room → SpawnEngine → PlayerState → ℕ → PlayerState × SpawnEngine × List Event
issue allocated fresh room spawn p now_ms =
    let timeout = sentence_timeout_ms room now_ms in
    if leb room.game_end_ms now_ms || ltb (room.game_end_ms - now_ms) timeout
    then (await_end p, spawn, [])
    else let phase = phase_at room now_ms in
      if ltb phase 1 || ltb max_phases phase
      then (await_end p, spawn, error_event p.conn_ptr invalid_phase ∷ [])
      else let cursor = get_or p.phase_cursor (phase - 1) 0 in
        let (ok, spawn') = ensure_cursor allocated fresh spawn phase cursor in
        if not ok
        then (await_end p, spawn', error_event p.conn_ptr spawn_cursor_failed ∷ [])
        else let (p', evs) = drop_sentence room spawn' p phase cursor timeout now_ms in
          (p', spawn', evs)

pub issue_next_sentence : Bool → ℕ → GameContext → ℕ → ℕ → GameContext
issue_next_sentence allocated fresh ctx i now_ms =
    let (p, spawn, evs) =
      issue allocated fresh ctx.room ctx.spawn (get_or ctx.players i no_player) now_ms in
    record ctx { players = set ctx.players i p; spawn = spawn; events = ctx.events ++ evs }

-- `array[i]++` on `bits` bits.
pub bump : List ℕ → ℕ → ℕ → List ℕ
bump xs i bits = set xs i ((get_or xs i 0 + 1) % 2 ^ bits)

-- The counts of a judged submission, and whether the next sentence comes.
pub count_result : Room → PlayerState → List ℕ → JudgeResult → Bool × PlayerState
count_result room p input jres = elim jres [
  | correct ↦
      let i = p.active_phase - 1 in
      let score = (phase_profile room.profile.phases i).correct_score in
      (
        true,
        record p {
          correct_count = (p.correct_count + 1) % 2 ^ 32;
          phase_correct = bump p.phase_correct i 32;
          phase_score = (p.phase_score + score) % 2 ^ 32;
          correct_chars = (p.correct_chars + count_chars input room.language) % 2 ^ 32;
        },
      )
  | incorrect ↦ (false, record p { incorrect_count = (p.incorrect_count + 1) % 2 ^ 32 })
  | expired ↦ (true, record p { expired_count = (p.expired_count + 1) % 2 ^ 32 })
  | _ ↦ (false, p)
]

pub score_of : PlayerState → ℕ → Score
score_of p sid = record {
  pno = p.player_no;
  sid = sid;
  play = p.play_score;
  phase = p.phase_score;
  acc_score = p.accuracy_score;
  acc_x100 = p.accuracy_x100;
  total = p.total_score;
  wpm = p.wpm;
}

-- The cursor of the player's phase moves, and the next sentence comes.
pub advance : Bool → ℕ → GameContext → ℕ → ℕ → GameContext
advance allocated fresh ctx i now_ms =
    let p = get_or ctx.players i no_player in
    let inside = leb 1 p.active_phase && leb p.active_phase max_phases in
    let cursors = if inside then bump p.phase_cursor (p.active_phase - 1) 64 else p.phase_cursor in
    issue_next_sentence allocated fresh (put_player ctx i (record p { phase_cursor = cursors })) i
      now_ms

-- A submission that the judge found correct, incorrect or expired.
pub score_submission : Bool → ℕ → GameContext → ℕ → ℕ → ℕ → List ℕ → JudgeResult → ℕ → GameContext
score_submission allocated fresh ctx i conn sentence_id input jres now_ms =
    let (next, counted) = count_result ctx.room (get_or ctx.players i no_player) input jres in
    let p = update_player_stats ctx.room counted now_ms in
    let judged = emit_event (put_player ctx i p) (sentence_result conn sentence_id jres) in
    let scored = emit_event judged (score_update conn (score_of p sentence_id)) in
    if next then advance allocated fresh scored i now_ms else scored

-- What a verdict leads to.
pub answer : Bool → ℕ → GameContext → ℕ → ℕ → ℕ → List ℕ → ℕ → JudgeResult → Bool × GameContext
answer allocated fresh ctx i conn sentence_id input now_ms jres = elim jres [
  | error ↦ (false, emit_error ctx conn judge_internal)
  | stale ↦ (true, emit_event ctx (sentence_result conn sentence_id stale))
  | verdict ↦ (true, score_submission allocated fresh ctx i conn sentence_id input verdict now_ms)
]

-- A submission of the player in slot `i`, who has a sentence.
pub submit_active : Bool → ℕ → GameContext → ℕ → ℕ → ℕ → List ℕ → ℕ → Bool × GameContext
submit_active allocated fresh ctx i conn sentence_id input now_ms =
    let p = get_or ctx.players i no_player in
    if ltb p.active_phase 1 || ltb max_phases p.active_phase
    then (false, emit_error ctx conn invalid_active_phase)
    else elim (sentence_at ctx.spawn p.active_phase
        (get_or p.phase_cursor (p.active_phase - 1) 0)) [
          | none ↦ (false, ctx)
          | some target ↦ answer allocated fresh ctx i conn sentence_id input now_ms (
              judge target p.active_sentence_id sentence_id input now_ms p.sentence_deadline_ms
                ctx.room.language)
        ]

pub is_playing : State → Bool
is_playing s = elim s [ playing ↦ true | _ ↦ false ]

-- `if (now_ms == 0) now_ms = ctx->last_tick_ms;`
pub time_of : GameContext → ℕ → ℕ
time_of ctx now_ms = if now_ms == 0 then ctx.last_tick_ms else now_ms

pub submit : Bool → ℕ → GameContext → ℕ → ℕ → List ℕ → ℕ → Bool × GameContext
submit allocated fresh ctx conn sentence_id input now_ms =
    if conn == 0 || not (is_playing ctx.room.state)
    then (false, ctx)
    else elim (find_player_by_conn ctx conn) [
      | none ↦ (false, ctx)
      | some i ↦
          let p = get_or ctx.players i no_player in
          if not p.connected || not (is_unfinished p)
          then (false, ctx)
          else if p.awaiting_game_end || p.active_sentence_id == 0
          then (true, emit_event ctx (sentence_result conn sentence_id stale))
          else submit_active allocated fresh ctx i conn sentence_id input (time_of ctx now_ms)
    ]
