-- ===== src/ToosType/Context/Play/Issued.antt =====
-- src/toos_type_game_context.c: what `issue_next_sentence` gives a player.
use libcore.Base.{
  ℕ, ◌+◌, ◌-◌, ◌^◌, ◌<◌, ◌≤◌, ◌≡◌, refl, arith, Bool, false, List, leb, ltb, get_or, length,
  Bool-cases, inl, inr, ◌⊎◌, some, ltb-false, [], ◌∷◌,
}
use libcore.Judge.{Sentence, expected_text}
use libcore.ToosType.Room.{Room, max_phases, uint64_max, phase_at, sentence_timeout_ms}
use libcore.ToosType.Room.Phases.{phase_at_bounds}
use libcore.ToosType.Spawn.{SpawnEngine, sentence_at}
use libcore.ToosType.Spawn.Engine.{IsEngine, Served, ensure_cursor-sentence_at}
use libcore.ToosType.Context.{PlayerState, Event, sentence_drop, error_event, spawn_cursor_failed}
use libcore.ToosType.Context.Play.{await_end, drop_sentence, issue}

-- The player waits for the end of the game, for one of the reasons there are: the time of a sentence does
-- not fit any more, and nothing is sent, or the engine could not go on, without memory or after 2^60
-- sentences, and the error is sent.
pub data Waits (allocated : Bool) (room : Room) (p : PlayerState) (now_ms : ℕ) (evs : List Event)
    : Type 0 where
  no_time :
      room.game_end_ms < now_ms + sentence_timeout_ms room now_ms
      → evs ≡ []
      → Waits allocated room p now_ms evs
  at_end : room.game_end_ms ≤ now_ms → evs ≡ [] → Waits allocated room p now_ms evs
  no_memory :
      allocated ≡ false
      → evs ≡ error_event p.conn_ptr spawn_cursor_failed ∷ []
      → Waits allocated room p now_ms evs
  far :
      2 ^ 60 ≤ get_or p.phase_cursor (phase_at room now_ms - 1) 0
      → evs ≡ error_event p.conn_ptr spawn_cursor_failed ∷ []
      → Waits allocated room p now_ms evs

-- The player has the sentence at the cursor of the phase, with all its time before the end of the game, and
-- is sent it.
pub record Has (room : Room) (spawn : SpawnEngine) (p p' : PlayerState) (now_ms : ℕ)
    (evs : List Event) : Type 0 where
  sent : Sentence
  found :
      sentence_at spawn (phase_at room now_ms) (get_or p.phase_cursor (phase_at room now_ms - 1) 0)
      ≡ some sent
  active : p'.active_sentence_id ≡ sent.id
  told :
      evs
      ≡ sentence_drop p.conn_ptr sent.id
          (expected_text sent room.language)
          (sentence_timeout_ms room now_ms)
        ∷ []
  spawned : p'.sentence_spawn_ms ≡ now_ms
  phase : p'.active_phase ≡ phase_at room now_ms
  deadline : p'.sentence_deadline_ms ≡ now_ms + sentence_timeout_ms room now_ms
  in_time : p'.sentence_deadline_ms ≤ room.game_end_ms
  same_cursors : p'.phase_cursor ≡ p.phase_cursor

pub Issued : Bool → Room → PlayerState → ℕ → PlayerState × SpawnEngine × List Event → Type 0
Issued allocated room p now_ms r =
    IsEngine (r.1)
    × (((r.0 ≡ await_end p) × Waits allocated room p now_ms (r.2))
        ⊎ Has room (r.1) p (r.0) now_ms (r.2))

drop_sentence_lem :
    (room : Room) (spawn : SpawnEngine) (p : PlayerState) (now_ms : ℕ) (s : Sentence)
    → room.game_end_ms ≤ uint64_max
    → now_ms + sentence_timeout_ms room now_ms ≤ room.game_end_ms
    → sentence_at spawn (phase_at room now_ms) (get_or p.phase_cursor (phase_at room now_ms - 1) 0)
      ≡ some s
    → let r =
        drop_sentence room spawn p
          (phase_at room now_ms)
          (get_or p.phase_cursor (phase_at room now_ms - 1) 0)
          (sentence_timeout_ms room now_ms)
          now_ms in
      Has room spawn p (r.0) now_ms (r.1)
unfolding drop_sentence
drop_sentence_lem room spawn p now_ms s h h' e =
    rw (drop_sentence, e)
      (record {
        sent = s;
        found = e;
        active = refl;
        told = refl;
        spawned = refl;
        phase = refl;
        deadline = omega arith;
        in_time = omega arith;
        same_cursors = refl;
      })

-- A player is sent the sentence at the cursor of the phase, has it, and its time ends within the game; or
-- the player waits for the end of the game, because the time of a sentence does not fit any more, or, with
-- an error sent, because there is no memory or the cursor is at 2^60 or more. The engine stays valid.
pub issue_lem :
    (allocated : Bool) (fresh : ℕ) (room : Room) (spawn : SpawnEngine) (p : PlayerState)
    (now_ms : ℕ)
    → IsEngine spawn
    → length room.profile.phases ≡ max_phases
    → room.game_end_ms ≤ uint64_max
    → Issued allocated room p now_ms (issue allocated fresh room spawn p now_ms)
unfolding issue Issued Served
issue_lem allocated fresh room spawn p now_ms v l h =
    let timeout = sentence_timeout_ms room now_ms in
    let phase = phase_at room now_ms in
    let cursor = get_or p.phase_cursor (phase - 1) 0 in
    let (low, high) = phase_at_bounds room now_ms l in
    let below = ltb-false phase 1 low in
    let above = ltb-false max_phases phase high in
    let (v', outcome) = ensure_cursor-sentence_at allocated fresh spawn phase cursor v low high in
    elim (Bool-cases (leb room.game_end_ms now_ms)) [
      | inl e ↦ rw (e) (v, inl (refl, at_end (ground arith) refl))
      | inr e ↦ elim (Bool-cases (ltb (room.game_end_ms - now_ms) timeout)) [
        | inl f ↦ rw (e, f) (v, inl (refl, no_time (ground arith) refl))
        | inr f ↦
            let fits : now_ms + timeout ≤ room.game_end_ms = ground arith in
            elim outcome [
              | inl (no_cursor, why) ↦
                  rw (e, f, below, above, no_cursor)
                    (v', inl (refl, elim why [ inl m ↦ no_memory m refl | inr c ↦ far c refl ]))
              | inr (ok, (s, there)) ↦
                  rw (e, f, below, above, ok)
                    (v', inr (drop_sentence_lem room _ p now_ms s h fits there))
            ]
      ]
    ]
