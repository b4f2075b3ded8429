-- ===== src/ToosType/Context/Play/Submitted.antt =====
-- src/toos_type_game_context.c: what a submission cannot change.
use libcore.Base.{
  ℕ, ◌-◌, ◌≡◌, refl, ◌∙◌, Bool, not, ◌||◌, List, ltb, ◌==◌, get_or, Bool-cases, Option-cases, inl,
  inr, some,
}
use libcore.Judge.{JudgeResult, correct, incorrect, expired, stale, error}
use libcore.ToosType.Room.{max_phases}
use libcore.ToosType.Spawn.{sentence_at}
use libcore.ToosType.Context.{
  GameContext, PlayerState, no_player, Event, sentence_result, score_update, emit_event, emit_error,
  find_player_by_conn,
}
use libcore.ToosType.Context.OneSlot.{OnlySlot, set-OnlySlot, same-OnlySlot, trans-OnlySlot}
use libcore.ToosType.Context.Play.{
  update_player_stats, is_unfinished, is_playing, count_result, put_player, issue_next_sentence,
  advance, score_submission, answer, submit_active, submit, time_of, score_of,
}

-- The room, who may join next and the slots of the other players are as before.
pub record Kept (i : ℕ) (ctx after : GameContext) : Type 0 where
  pub same_room : after.room ≡ ctx.room
  pub same_count : after.active_player_count ≡ ctx.active_player_count
  pub same_seq : after.next_join_seq ≡ ctx.next_join_seq
  pub slots : OnlySlot i ctx.players after.players

Kept-same : (i : ℕ) (ctx : GameContext) → Kept i ctx ctx
Kept-same i ctx = record {
  same_room = refl;
  same_count = refl;
  same_seq = refl;
  slots = same-OnlySlot ctx.players i;
}

issue-Kept :
    (allocated : Bool) (fresh : ℕ) (ctx : GameContext) (i now_ms : ℕ)
    → Kept i ctx (issue_next_sentence allocated fresh ctx i now_ms)
unfolding issue_next_sentence
issue-Kept allocated fresh ctx i now_ms = record {
  same_room = refl;
  same_count = refl;
  same_seq = refl;
  slots = set-OnlySlot ctx.players ctx.players i _ (same-OnlySlot ctx.players i);
}

put-Kept :
    (ctx after : GameContext) (i : ℕ) (p : PlayerState)
    → Kept i ctx after
    → Kept i ctx (put_player after i p)
unfolding put_player
put-Kept ctx after i p k = record {
  same_room = k.same_room;
  same_count = k.same_count;
  same_seq = k.same_seq;
  slots = set-OnlySlot ctx.players after.players i p k.slots;
}

trans-Kept : (i : ℕ) (a b c : GameContext) → Kept i a b → Kept i b c → Kept i a c
trans-Kept i a b c k l = record {
  same_room = l.same_room ∙ k.same_room;
  same_count = l.same_count ∙ k.same_count;
  same_seq = l.same_seq ∙ k.same_seq;
  slots = trans-OnlySlot a.players b.players c.players i k.slots l.slots;
}

advance-Kept :
    (allocated : Bool) (fresh : ℕ) (ctx : GameContext) (i now_ms : ℕ)
    → Kept i ctx (advance allocated fresh ctx i now_ms)
unfolding advance
advance-Kept allocated fresh ctx i now_ms =
    trans-Kept i ctx _ _ (put-Kept ctx ctx i _ (Kept-same i ctx))
      (issue-Kept allocated fresh _ i now_ms)

-- The scores after a submission, before the next sentence comes.
scored-Kept :
    (ctx : GameContext) (i conn sentence_id : ℕ) (jres : JudgeResult) (p : PlayerState)
    → Kept i ctx (
        emit_event
          (emit_event (put_player ctx i p) (sentence_result conn sentence_id jres))
          (score_update conn (score_of p sentence_id)))
unfolding emit_event
scored-Kept ctx i conn sentence_id jres p =
    let k = put-Kept ctx ctx i p (Kept-same i ctx) in
    record {
      same_room = k.same_room;
      same_count = k.same_count;
      same_seq = k.same_seq;
      slots = k.slots;
    }

score_submission-Kept :
    (allocated : Bool) (fresh : ℕ) (ctx : GameContext) (i conn sentence_id : ℕ) (input : List ℕ)
    (jres : JudgeResult) (now_ms : ℕ)
    → Kept i ctx (score_submission allocated fresh ctx i conn sentence_id input jres now_ms)
unfolding score_submission
score_submission-Kept allocated fresh ctx i conn sentence_id input jres now_ms =
    let counted = count_result ctx.room (get_or ctx.players i no_player) input jres in
    let scored =
      scored-Kept ctx i conn sentence_id jres (update_player_stats ctx.room (counted.1) now_ms) in
    elim (Bool-cases (counted.0)) [
      | inl e ↦ simp (e) (trans-Kept i ctx _ _ scored (advance-Kept allocated fresh _ i now_ms))
      | inr e ↦ simp (e) scored
    ]

told-Kept : (ctx : GameContext) (i : ℕ) (ev : Event) → Kept i ctx (emit_event ctx ev)
unfolding emit_event
told-Kept ctx i ev = record {
  same_room = refl;
  same_count = refl;
  same_seq = refl;
  slots = same-OnlySlot ctx.players i;
}

answer-Kept :
    (allocated : Bool) (fresh : ℕ) (ctx : GameContext) (i conn sentence_id : ℕ) (input : List ℕ)
    (now_ms : ℕ) (jres : JudgeResult)
    → Kept i ctx ((answer allocated fresh ctx i conn sentence_id input now_ms jres).1)
unfolding answer emit_error
answer-Kept allocated fresh ctx i conn sentence_id input now_ms error = told-Kept ctx i _
answer-Kept allocated fresh ctx i conn sentence_id input now_ms stale = told-Kept ctx i _
answer-Kept allocated fresh ctx i conn sentence_id input now_ms correct =
    score_submission-Kept allocated fresh ctx i conn sentence_id input correct now_ms
answer-Kept allocated fresh ctx i conn sentence_id input now_ms incorrect =
    score_submission-Kept allocated fresh ctx i conn sentence_id input incorrect now_ms
answer-Kept allocated fresh ctx i conn sentence_id input now_ms expired =
    score_submission-Kept allocated fresh ctx i conn sentence_id input expired now_ms

submit_active-Kept :
    (allocated : Bool) (fresh : ℕ) (ctx : GameContext) (i conn sentence_id : ℕ) (input : List ℕ)
    (now_ms : ℕ)
    → Kept i ctx ((submit_active allocated fresh ctx i conn sentence_id input now_ms).1)
unfolding submit_active emit_error
submit_active-Kept allocated fresh ctx i conn sentence_id input now_ms =
    let p = get_or ctx.players i no_player in
    elim (Bool-cases (ltb p.active_phase 1 || ltb max_phases p.active_phase)) [
      | inl a ↦ simp (a) (told-Kept ctx i _)
      | inr a ↦
          elim (Option-cases
            (sentence_at ctx.spawn p.active_phase (get_or p.phase_cursor (p.active_phase - 1) 0))) [
              | inl b ↦ simp (a, b) (Kept-same i ctx)
              | inr (target, b) ↦
                  simp (a, b) (answer-Kept allocated fresh ctx i conn sentence_id input now_ms _)
            ]
    ]

-- A submission changes no other player's slot and nothing of the room, whatever the verdict.
pub submit-Kept :
    (allocated : Bool) (fresh : ℕ) (ctx : GameContext) (conn sentence_id : ℕ) (input : List ℕ)
    (now_ms i : ℕ)
    → find_player_by_conn ctx conn ≡ some i
    → Kept i ctx ((submit allocated fresh ctx conn sentence_id input now_ms).1)
unfolding submit
submit-Kept allocated fresh ctx conn sentence_id input now_ms i found =
    let p = get_or ctx.players i no_player in
    let same = Kept-same i ctx in
    elim (Bool-cases (conn == 0 || not (is_playing ctx.room.state))) [
      | inl a ↦ simp (a) same
      | inr a ↦ elim (Bool-cases (not p.connected || not (is_unfinished p))) [
        | inl b ↦ simp (a, found, b) same
        | inr b ↦ elim (Bool-cases (p.awaiting_game_end || p.active_sentence_id == 0)) [
          | inl c ↦ simp (a, found, b, c) (told-Kept ctx i _)
          | inr c ↦
              simp (a, found, b, c)
                (submit_active-Kept allocated fresh ctx i conn sentence_id input
                  (time_of ctx now_ms))
        ]
      ]
    ]
