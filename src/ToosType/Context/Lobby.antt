-- ===== src/ToosType/Context/Lobby.antt =====
-- src/toos_type_game_context.c: what players do before a game. `build_deck` is
-- `ToosTypeSpawnEngine_build_deck` on the data base, with what it returns and leaves in the engine.
use libcore.Base.{
  ℕ, ◌-◌, Bool, true, false, not, ◌||◌, none, some, List, ltb, ◌==◌, if◌then◌else◌, get_or, set,
}
use libcore.Judge.{is_language}
use libcore.ToosType.Room.{set_duration_minutes, start_countdown}
use libcore.ToosType.Spawn.{SpawnEngine}
use libcore.ToosType.Context.{
  GameContext, PlayerState, no_player, min_room_players, game_already_started, language_locked_now,
  not_host, invalid_language, config_locked, cannot_change_while_ready, invalid_duration,
  language_not_selected, not_waiting, not_all_ready, start_already_prepared, deck_build_failed,
  start_not_prepared, start_countdown_failed, countdown_left, emit_event, emit_error,
  emit_room_config, count_here, count_ready, find_player_by_conn, any_ready, is_waiting,
  reset_spawn_engine,
}

-- `!p || p->player_no != ctx->room.host_player_no`, negated.
unfoldable pub is_host : GameContext → ℕ → Bool
is_host ctx conn = elim (find_player_by_conn ctx conn) [
  | none ↦ false
  | some i ↦ (get_or ctx.players i no_player).player_no == ctx.room.host_player_no
]

unfoldable pub set_language : GameContext → ℕ → ℕ → Bool × GameContext
set_language ctx conn lang =
    if conn == 0
    then (false, ctx)
    else if not (is_waiting ctx.room.state)
    then (false, emit_error ctx conn game_already_started)
    else if ctx.room.language_locked
    then (false, emit_error ctx conn language_locked_now)
    else if not (is_host ctx conn)
    then (false, emit_error ctx conn not_host)
    else if not (is_language lang)
    then (false, emit_error ctx conn invalid_language)
    else (true, emit_room_config (record ctx { room = record ctx.room { language = lang } }) 0)

unfoldable pub set_duration : GameContext → ℕ → ℕ → Bool × GameContext
set_duration ctx conn minutes =
    if conn == 0
    then (false, ctx)
    else if not (is_waiting ctx.room.state)
    then (false, emit_error ctx conn game_already_started)
    else if not (is_host ctx conn)
    then (false, emit_error ctx conn not_host)
    else if ctx.room.language_locked
    then (false, emit_error ctx conn config_locked)
    else if any_ready ctx.players
    then (false, emit_error ctx conn cannot_change_while_ready)
    else let (ok, room) = set_duration_minutes ctx.room minutes in
      if not ok
      then (false, emit_error ctx conn invalid_duration)
      else (true, emit_room_config (record ctx { room = room }) 0)

unfoldable pub set_ready : GameContext → ℕ → Bool × GameContext
set_ready ctx conn =
    if conn == 0
    then (false, ctx)
    else if not (is_waiting ctx.room.state)
    then (false, ctx)
    else if ctx.room.language == 0
    then (false, emit_error ctx conn language_not_selected)
    else elim (find_player_by_conn ctx conn) [
      | none ↦ (false, ctx)
      | some i ↦
          let p : PlayerState = record (get_or ctx.players i no_player) { ready = true } in
          (
            true,
            emit_room_config
                (record ctx {
                  room = record ctx.room { language_locked = true };
                  players = set ctx.players i p;
                })
                0,
          )
    ]

-- `connected_count < MIN || ready_count != connected_count`, negated.
unfoldable pub all_are_ready : List PlayerState → Bool
all_are_ready players =
    not
      (ltb (count_here players) min_room_players || not (count_ready players == count_here players))

unfoldable pub prepare_start :
    (SpawnEngine → ℕ → Bool × SpawnEngine) → GameContext → ℕ → Bool × GameContext
prepare_start build_deck ctx conn =
    if conn == 0
    then (false, ctx)
    else if not (is_waiting ctx.room.state)
    then (false, emit_error ctx conn not_waiting)
    else if not (is_host ctx conn)
    then (false, emit_error ctx conn not_host)
    else if not (is_language ctx.room.language)
    then (false, emit_error ctx conn language_not_selected)
    else if not (all_are_ready ctx.players)
    then (false, emit_error ctx conn not_all_ready)
    else if ctx.spawn.loaded
    then (false, emit_error ctx conn start_already_prepared)
    else let (ok, spawn) = build_deck ctx.spawn ctx.room.language in
      let built : GameContext = record ctx { spawn = spawn } in
      if not ok then (false, emit_error built conn deck_build_failed) else (true, built)

unfoldable pub abort_start : GameContext → GameContext
abort_start ctx =
    if is_waiting ctx.room.state
    then if ctx.spawn.loaded then reset_spawn_engine ctx else ctx
    else ctx

-- `if (ctx->spawn.loaded) reset_spawn_engine(ctx);`
unfoldable pub drop_deck : GameContext → GameContext
drop_deck ctx = if ctx.spawn.loaded then reset_spawn_engine ctx else ctx

unfoldable pub start_game : GameContext → ℕ → ℕ → Bool × GameContext
start_game ctx conn now_ms =
    if conn == 0 || now_ms == 0
    then (false, ctx)
    else if not (is_waiting ctx.room.state)
    then (false, emit_error ctx conn not_waiting)
    else if not (is_host ctx conn)
    then (false, emit_error (drop_deck ctx) conn not_host)
    else if not (all_are_ready ctx.players)
    then (false, emit_error (drop_deck ctx) conn not_all_ready)
    else if not ctx.spawn.loaded
    then (false, emit_error ctx conn start_not_prepared)
    else let (ok, room) = start_countdown ctx.room now_ms in
      let started : GameContext = record ctx { room = room } in
      if not ok
      then (false, emit_error (reset_spawn_engine started) conn start_countdown_failed)
      else let ends = room.countdown_ends_at_ms in
        let left = if ltb now_ms ends then ends - now_ms else 0 in
        (true, emit_room_config (emit_event started (countdown_left left)) 0)
