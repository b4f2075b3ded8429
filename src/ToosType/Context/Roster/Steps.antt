-- ===== src/ToosType/Context/Roster/Steps.antt =====
-- src/toos_type_game_context.c: the operations of the lobby keep the roster.
use libcore.Base.{
  ℕ, zero, suc, ◌+◌, ◌<◌, ◌≤◌, ◌≡◌, refl, sym, ap, ◌∙◌, arith, Bool, true, false, List, [], ◌∷◌,
  ◌==◌, get_or, set, length, length-set, replicate, some, Bool-cases, Option-cases, inl, inr, ◌⊎◌,
}
use libcore.ToosType.Room.{
  Room, waiting, countdown, GameProfile, uint64_max, set_duration_minutes, start_countdown,
  cancel_countdown, make_deadline,
}
use libcore.ToosType.Room.{init as init_room}
use libcore.ToosType.Spawn.{SpawnEngine}
use libcore.ToosType.Context.{
  GameContext, PlayerState, no_player, init, is_here, is_waiting, oldest_from, any_ready, free_from,
  find_from, find_player_by_conn, add_player, join, emit_event, emit_error, emit_room_config,
  recalculate_host, refresh_config_lock, reset_spawn_engine, reset_empty_room, max_room_players,
}
use libcore.ToosType.Context.Lobby.{
  drop_deck, set_language, set_duration, set_ready, prepare_start, abort_start, start_game,
}
use libcore.ToosType.Context.Leave.{remove_player, leave_countdown, leave_waiting, disconnect}
use libcore.ToosType.Context.Play.{put_player, time_of}
use libcore.ToosType.Context.Roster.{IsRoster, OfContext, count_occupied, Numbered}
use libcore.ToosType.Context.Roster.Slots.{
  free_from_lem, find_from_lem, count_taken, count_emptied, count_same, Numbered-set, Numbered-at,
  any_ready_joined, any_ready-set, oldest_ready,
}

Numbered-none : (n k : ℕ) → Numbered k (replicate n no_player)
unfolding Numbered
Numbered-none zero k = tt
Numbered-none (suc n) k = (λ h. absurd cc, Numbered-none n (k + 1))

empty-IsRoster : IsRoster (replicate max_room_players no_player) 0 0 false
unfolding count_occupied oldest_from any_ready is_here
empty-IsRoster = record {
  slots = refl;
  counted = refl;
  numbered = Numbered-none 8 0;
  hosted = refl;
  lock = refl;
}

count_le : (ps : List PlayerState) → count_occupied ps ≤ length ps
unfolding count_occupied
count_le [] = omega arith
count_le (p ∷ ps) = let ih = count_le ps in ground arith

add_player-IsRoster :
    (ctx : GameContext) (conn i : ℕ)
    → OfContext ctx
    → free_from ctx.players 0 ≡ some i
    → OfContext (add_player ctx conn i)
unfolding add_player recalculate_host emit_room_config emit_event
add_player-IsRoster ctx conn i v h =
    let (j, e, l, f) = free_from_lem ctx.players 0 i h in
    let same : i ≡ j = omega (arith, e) in
    let free : (get_or ctx.players i no_player).occupied ≡ false =
      ap (λ k. (get_or ctx.players k no_player).occupied) same ∙ f in
    let inside : i < length ctx.players = omega (arith, l, same) in
    let room = count_le ctx.players in
    let p : PlayerState = record no_player {
      occupied = true;
      player_no = i + 1;
      join_seq = ctx.next_join_seq;
      connected = true;
      conn_ptr = conn;
    } in
    record {
      slots = length-set ctx.players i _ ∙ v.slots;
      counted =
          (let taken = count_taken ctx.players i p inside free refl in
            omega (arith, taken, v.counted, room, v.slots));
      numbered = Numbered-set ctx.players 0 i _ v.numbered (λ o. (omega arith, refl));
      hosted = refl;
      lock = v.lock ∙ sym (any_ready_joined ctx.players i _ free refl);
    }

find_player_lem :
    (ctx : GameContext) (conn i : ℕ)
    → find_player_by_conn ctx conn ≡ some i
    → (i < length ctx.players) × ((get_or ctx.players i no_player).occupied ≡ true)
unfolding find_player_by_conn
find_player_lem ctx conn i h =
    let found : find_from ctx.players conn 0 ≡ some i = ground arith in
    let (j, e, l, f, c) = find_from_lem ctx.players conn 0 i found in
    let same : i ≡ j = omega (arith, e) in
    (omega (arith, l, same), ap (λ k. (get_or ctx.players k no_player).occupied) same ∙ f)

pub join-IsRoster : (ctx : GameContext) (conn : ℕ) → OfContext ctx → OfContext ((join ctx conn).1)
unfolding join emit_error emit_event
join-IsRoster ctx conn v = elim (Bool-cases (conn == 0)) [
  | inl a ↦ simp (a) v
  | inr a ↦ elim (Bool-cases (is_waiting ctx.room.state)) [
    | inr b ↦ simp (a, b) v
    | inl b ↦ elim (Option-cases (find_player_by_conn ctx conn)) [
      | inr (i, c) ↦ simp (a, b, c) v
      | inl c ↦ elim (Option-cases (free_from ctx.players 0)) [
        | inl d ↦ simp (a, b, c, d) v
        | inr (i, d) ↦ simp (a, b, c, d) (add_player-IsRoster ctx conn i v d)
      ]
    ]
  ]
]

pub set_language-IsRoster :
    (ctx : GameContext) (conn lang : ℕ) → OfContext ctx → OfContext ((set_language ctx conn lang).1)
unfolding set_language emit_error emit_event emit_room_config
set_language-IsRoster ctx conn lang v = ground arith

pub set_duration-IsRoster :
    (ctx : GameContext) (conn minutes : ℕ)
    → OfContext ctx
    → OfContext ((set_duration ctx conn minutes).1)
unfolding set_duration emit_error emit_event emit_room_config set_duration_minutes
set_duration-IsRoster ctx conn minutes v = ground arith

-- A player who is ready keeps the slot and locks the settings.
ready-IsRoster :
    (ctx : GameContext) (i : ℕ)
    → OfContext ctx
    → i < length ctx.players
    → (get_or ctx.players i no_player).occupied ≡ true
    → IsRoster
        (set ctx.players i (record (get_or ctx.players i no_player) { ready = true }))
        ctx.active_player_count
        ctx.room.host_player_no
        true
unfolding is_here
ready-IsRoster ctx i v l o =
    let p : PlayerState = record (get_or ctx.players i no_player) { ready = true } in
    let (num, connected) = Numbered-at ctx.players 0 i v.numbered o in
    record {
      slots = length-set ctx.players i p ∙ v.slots;
      counted = v.counted ∙ sym (count_same ctx.players i p refl);
      numbered = Numbered-set ctx.players 0 i p v.numbered (λ h. (num, connected));
      hosted = v.hosted ∙ sym (oldest_ready ctx.players i uint64_max 0);
      lock = sym (any_ready-set ctx.players i p l (rw (o, connected) refl) refl);
    }

pub set_ready-IsRoster :
    (ctx : GameContext) (conn : ℕ) → OfContext ctx → OfContext ((set_ready ctx conn).1)
unfolding set_ready emit_error emit_event emit_room_config
set_ready-IsRoster ctx conn v = elim (Bool-cases (conn == 0)) [
  | inl a ↦ simp (a) v
  | inr a ↦ elim (Bool-cases (is_waiting ctx.room.state)) [
    | inr b ↦ simp (a, b) v
    | inl b ↦ elim (Bool-cases (ctx.room.language == 0)) [
      | inl c ↦ simp (a, b, c) v
      | inr c ↦ elim (Option-cases (find_player_by_conn ctx conn)) [
        | inl d ↦ simp (a, b, c, d) v
        | inr (i, d) ↦
            let (l, o) = find_player_lem ctx conn i d in
            simp (a, b, c, d) (ready-IsRoster ctx i v l o)
      ]
    ]
  ]
]

pub prepare_start-IsRoster :
    (build_deck : SpawnEngine → ℕ → Bool × SpawnEngine) (ctx : GameContext) (conn : ℕ)
    → OfContext ctx
    → OfContext ((prepare_start build_deck ctx conn).1)
unfolding prepare_start emit_error emit_event
prepare_start-IsRoster build_deck ctx conn v = ground arith

pub abort_start-IsRoster : (ctx : GameContext) → OfContext ctx → OfContext (abort_start ctx)
unfolding abort_start reset_spawn_engine
abort_start-IsRoster ctx v = ground arith

pub start_game-IsRoster :
    (ctx : GameContext) (conn now_ms : ℕ)
    → OfContext ctx
    → OfContext ((start_game ctx conn now_ms).1)
unfolding start_game start_countdown make_deadline drop_deck reset_spawn_engine emit_error
    emit_event emit_room_config
start_game-IsRoster ctx conn now_ms v = ground arith

-- The slot of a player who leaves is emptied.
remove_player-IsRoster :
    (ctx : GameContext) (i : ℕ)
    → OfContext ctx
    → i < length ctx.players
    → (get_or ctx.players i no_player).occupied ≡ true
    → IsRoster
        (remove_player ctx i).players
        (remove_player ctx i).active_player_count
        (remove_player ctx i).room.host_player_no
        (any_ready (remove_player ctx i).players)
unfolding remove_player recalculate_host put_player
remove_player-IsRoster ctx i v l o =
    let emptied = count_emptied ctx.players i l o in
    record {
      slots = length-set ctx.players i no_player ∙ v.slots;
      counted = ground (arith, emptied, v.counted);
      numbered = Numbered-set ctx.players 0 i no_player v.numbered (λ h. absurd cc);
      hosted = refl;
      lock = refl;
    }

leave_waiting-IsRoster :
    (ctx : GameContext) (i now_ms : ℕ)
    → OfContext ctx
    → i < length ctx.players
    → (get_or ctx.players i no_player).occupied ≡ true
    → OfContext (leave_waiting ctx i now_ms)
unfolding leave_waiting refresh_config_lock emit_room_config emit_event reset_empty_room
    set_duration_minutes
leave_waiting-IsRoster ctx i now_ms v l o =
    let left = remove_player-IsRoster ctx i v l o in
    elim (Bool-cases ((remove_player ctx i).active_player_count == 0)) [
      | inl e ↦ simp (e) empty-IsRoster
      | inr e ↦ simp (e) left
    ]

cancel_countdown-host :
    (r : Room) (now_ms : ℕ) → (cancel_countdown r now_ms).host_player_no ≡ r.host_player_no
unfolding cancel_countdown
cancel_countdown-host r now_ms = ground arith

leave_countdown-IsRoster :
    (ctx : GameContext) (i now_ms : ℕ)
    → OfContext ctx
    → i < length ctx.players
    → (get_or ctx.players i no_player).occupied ≡ true
    → OfContext (leave_countdown ctx i now_ms)
unfolding leave_countdown refresh_config_lock emit_room_config emit_event reset_empty_room
    reset_spawn_engine set_duration_minutes
leave_countdown-IsRoster ctx i now_ms v l o =
    let left = remove_player-IsRoster ctx i v l o in
    let kept = cancel_countdown-host (remove_player ctx i).room now_ms in
    elim (Bool-cases ((remove_player ctx i).active_player_count == 0)) [
      | inl e ↦ simp (e) empty-IsRoster
      | inr e ↦ simp (e) (record {
        slots = left.slots;
        counted = left.counted;
        numbered = left.numbered;
        hosted = kept ∙ left.hosted;
        lock = refl;
      })
    ]

-- Who leaves a room before its game leaves a roster.
pub disconnect-IsRoster :
    (ctx : GameContext) (conn now_ms : ℕ)
    → OfContext ctx
    → (ctx.room.state ≡ waiting) ⊎ (ctx.room.state ≡ countdown)
    → OfContext ((disconnect ctx conn now_ms).1)
unfolding disconnect
disconnect-IsRoster ctx conn now_ms v s = elim (Bool-cases (conn == 0)) [
  | inl a ↦ simp (a) v
  | inr a ↦ elim (Option-cases (find_player_by_conn ctx conn)) [
    | inl b ↦ simp (a, b) v
    | inr (i, b) ↦
        let (l, o) = find_player_lem ctx conn i b in
        elim s [
          | inl w ↦ simp (a, b, w) (leave_waiting-IsRoster ctx i (time_of ctx now_ms) v l o)
          | inr c ↦ simp (a, b, c) (leave_countdown-IsRoster ctx i (time_of ctx now_ms) v l o)
        ]
  ]
]

pub init-IsRoster : (room_id : ℕ) (profile : GameProfile) → OfContext (init room_id profile)
unfolding init init_room
init-IsRoster room_id profile = empty-IsRoster
