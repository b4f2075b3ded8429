-- ===== src/ToosType/Context/Tick.antt =====
-- src/toos_type_game_context.c: `ToosTypeGameContext_tick`. `memory` says for each slot whether
-- `realloc` gives memory when a sentence is issued to its player.
pub mod Players
pub mod Ended
use libcore.Base.{
  ℕ, zero, suc, ◌+◌, ◌-◌, ◌%◌, ◌^◌, Bool, true, false, not, ◌&&◌, List, [], ◌∷◌, ltb, leb, ◌==◌,
  if◌then◌else◌, get_or, set, length,
}
use libcore.Judge.{expired}
use libcore.ToosType.Room.{
  Room, playing, sentence_timeout_ms, tick_none, game_started, phase_changed, game_ended,
}
use libcore.ToosType.Room.{tick as tick_room}
use libcore.ToosType.Context.{
  GameContext, PlayerState, no_player, finished, game_state, phase_change, sentence_result,
  score_update, game_over, final_ranking, emit_event, emit_room_config, is_here,
}
use libcore.ToosType.Context.Play.{
  minus64, is_unfinished, is_playing, update_player_stats, cleared, put_player, issue_next_sentence,
  score_of, advance, time_of,
}
use libcore.ToosType.Context.Ranking.{entries_of, sort_entries, give_ranks}

-- The loop that gives the first sentences, `n` slots from `i` on.
pub issue_from : ℕ → ℕ → (ℕ → Bool) → ℕ → GameContext → ℕ → GameContext
issue_from zero i memory fresh ctx now_ms = ctx
issue_from (suc n) i memory fresh ctx now_ms =
    let ctx' =
      if is_here (get_or ctx.players i no_player)
      then issue_next_sentence (memory i) fresh ctx i now_ms
      else ctx in
    issue_from n (i + 1) memory fresh ctx' now_ms

pub on_started : (ℕ → Bool) → ℕ → GameContext → ℕ → GameContext
on_started memory fresh ctx now_ms =
    let ends = ctx.room.game_end_ms in
    let left = if ltb now_ms ends then ends - now_ms else 0 in
    let told =
      emit_room_config (emit_event ctx (game_state playing ctx.room.current_phase left)) 0 in
    issue_from (length ctx.players) 0 memory fresh told now_ms

pub on_phase_changed : GameContext → ℕ → GameContext
on_phase_changed ctx now_ms =
    let ends = ctx.room.game_end_ms in
    let left = if ltb now_ms ends then ends - now_ms else 0 in
    emit_event ctx (phase_change ctx.room.current_phase (sentence_timeout_ms ctx.room now_ms) left)

-- A sentence that ran out before the end of the game.
pub expire_last : GameContext → ℕ → GameContext
expire_last ctx i =
    let p = get_or ctx.players i no_player in
    if not (p.active_sentence_id == 0) && leb p.sentence_deadline_ms ctx.room.game_end_ms
    then emit_event
        (put_player ctx i (record (cleared p) { expired_count = (p.expired_count + 1) % 2 ^ 32 }))
        (sentence_result p.conn_ptr p.active_sentence_id expired)
    else ctx

pub finish_player : GameContext → ℕ → GameContext
finish_player ctx i =
    let ctx' = expire_last ctx i in
    let played_ms = minus64 ctx.room.game_end_ms ctx.room.game_start_ms in
    let p : PlayerState = record (get_or ctx'.players i no_player) {
      played_ms = played_ms;
      finish_status = finished;
    } in
    put_player ctx' i (update_player_stats ctx.room p ctx.room.game_end_ms)

pub finish_from : ℕ → ℕ → GameContext → GameContext
finish_from zero i ctx = ctx
finish_from (suc n) i ctx =
    let p = get_or ctx.players i no_player in
    finish_from n (i + 1) (if p.occupied && is_unfinished p then finish_player ctx i else ctx)

pub on_ended : GameContext → GameContext
on_ended ctx =
    let done = finish_from (length ctx.players) 0 ctx in
    let entries = entries_of done.players in
    let ranked = give_ranks (sort_entries (length entries) entries) in
    emit_room_config (emit_event (emit_event done game_over) (final_ranking ranked)) 0

-- A player whose sentence ran out.
pub expire : Bool → ℕ → GameContext → ℕ → ℕ → GameContext
expire allocated fresh ctx i now_ms =
    let p = get_or ctx.players i no_player in
    let counted : PlayerState = record p { expired_count = (p.expired_count + 1) % 2 ^ 32 } in
    let scored = update_player_stats ctx.room counted now_ms in
    let judged =
      emit_event (put_player ctx i scored)
        (sentence_result p.conn_ptr p.active_sentence_id expired) in
    let told = emit_event judged (score_update p.conn_ptr (score_of scored p.active_sentence_id)) in
    advance allocated fresh told i now_ms

pub has_expired : PlayerState → ℕ → Bool
has_expired p now_ms =
    is_here p
    && is_unfinished p
    && not (p.active_sentence_id == 0)
    && leb p.sentence_deadline_ms now_ms

pub expire_from : ℕ → ℕ → (ℕ → Bool) → ℕ → GameContext → ℕ → GameContext
expire_from zero i memory fresh ctx now_ms = ctx
expire_from (suc n) i memory fresh ctx now_ms =
    let late = has_expired (get_or ctx.players i no_player) now_ms in
    let ctx' = if late then expire (memory i) fresh ctx i now_ms else ctx in
    expire_from n (i + 1) memory fresh ctx' now_ms

pub expire_all : (ℕ → Bool) → ℕ → GameContext → ℕ → GameContext
expire_all memory fresh ctx now_ms =
    if is_playing ctx.room.state
    then expire_from (length ctx.players) 0 memory fresh ctx now_ms
    else ctx

-- `memory` answers for the first sentences, `memory'` for those after a sentence that ran out.
pub tick : (ℕ → Bool) → (ℕ → Bool) → ℕ → GameContext → ℕ → GameContext
tick memory memory' fresh ctx now =
    let now_ms = time_of ctx now in
    let (tick_res, room) = tick_room ctx.room now_ms in
    let ticked : GameContext = record ctx { last_tick_ms = now_ms; room = room } in
    elim tick_res [
      | game_started ↦ expire_all memory' fresh (on_started memory fresh ticked now_ms) now_ms
      | phase_changed ↦ expire_all memory' fresh (on_phase_changed ticked now_ms) now_ms
      | game_ended ↦ on_ended ticked
      | tick_none ↦ expire_all memory' fresh ticked now_ms
    ]
