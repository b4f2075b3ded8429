-- ===== src/ToosType/Context/Leave.antt =====
-- src/toos_type_game_context.c: a connection that ends, in each state of the room.
use libcore.Base.{
  ℕ, ◌-◌, Bool, true, false, not, none, some, List, [], ◌∷◌, ltb, ◌==◌, if◌then◌else◌, get_or,
}
use libcore.ToosType.Room.{waiting, countdown, cancel_countdown}
use libcore.ToosType.Context.{
  GameContext, PlayerState, no_player, dnf, game_state, emit_event, emit_room_config, is_here,
  find_player_by_conn, recalculate_host, refresh_config_lock, reset_spawn_engine, reset_empty_room,
}
use libcore.ToosType.Context.Play.{is_unfinished, update_player_stats, put_player, time_of}

-- The slot is emptied and the host is chosen anew.
unfoldable pub remove_player : GameContext → ℕ → GameContext
remove_player ctx i =
    let count = ctx.active_player_count in
    recalculate_host (record (put_player ctx i no_player) {
      active_player_count = if ltb 0 count then count - 1 else count;
    })

unfoldable pub leave_countdown : GameContext → ℕ → ℕ → GameContext
leave_countdown ctx i now_ms =
    let left = remove_player ctx i in
    let cancelled : GameContext = record left { room = cancel_countdown left.room now_ms } in
    if cancelled.active_player_count == 0
    then reset_empty_room cancelled now_ms
    else let reset = refresh_config_lock (reset_spawn_engine cancelled) in
      emit_room_config (emit_event reset (game_state waiting 0 0)) 0

unfoldable pub leave_waiting : GameContext → ℕ → ℕ → GameContext
leave_waiting ctx i now_ms =
    let left = remove_player ctx i in
    if left.active_player_count == 0
    then reset_empty_room left now_ms
    else emit_room_config (refresh_config_lock left) 0

pub any_connected : List PlayerState → Bool
any_connected [] = false
any_connected (p ∷ ps) = let rest = any_connected ps in if is_here p then true else rest

-- The player of a game who leaves keeps the slot and the score so far.
pub gone : GameContext → PlayerState → ℕ → PlayerState
gone ctx p now_ms =
    let p1 : PlayerState = record p { connected = false; conn_ptr = 0 } in
    let end_ms = if ltb ctx.room.game_end_ms now_ms then ctx.room.game_end_ms else now_ms in
    let played_ms =
      if ltb ctx.room.game_start_ms end_ms then end_ms - ctx.room.game_start_ms else 0 in
    if not (is_unfinished p)
    then p1
    else update_player_stats ctx.room (record p1 { played_ms = played_ms; finish_status = dnf })
        now_ms

pub leave_game : GameContext → ℕ → ℕ → GameContext
leave_game ctx i now_ms =
    let left = put_player ctx i (gone ctx (get_or ctx.players i no_player) now_ms) in
    if not (any_connected left.players) then reset_empty_room left now_ms else left

unfoldable pub disconnect : GameContext → ℕ → ℕ → Bool × GameContext
disconnect ctx conn now_ms =
    if conn == 0 then (false, ctx) else elim (find_player_by_conn ctx conn) [
      | none ↦ (false, ctx)
      | some i ↦ elim ctx.room.state [
        | countdown ↦ (true, leave_countdown ctx i (time_of ctx now_ms))
        | waiting ↦ (true, leave_waiting ctx i (time_of ctx now_ms))
        | _ ↦ (true, leave_game ctx i (time_of ctx now_ms))
      ]
    ]
