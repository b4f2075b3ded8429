-- ===== src/ToosType/Context/Start.antt =====
-- src/toos_type_game_context.c: when a game is started, and what a refusal leaves.
use libcore.Base.{
  ℕ, zero, suc, ◌+◌, ◌<◌, ◌≤◌, ◌≡◌, refl, ap, arith, Bool, true, false, ◌||◌, List, [], ◌∷◌, ◌==◌,
  get_or, Bool-cases, inl, inr, ◌⊎◌,
}
use libcore.ToosType.Room.{
  Room, State, waiting, countdown, uint64_max, start_countdown, make_deadline,
}
use libcore.ToosType.Spawn.{init as init_spawn}
use libcore.ToosType.Context.{
  GameContext, PlayerState, no_player, is_here, is_waiting, count_here, count_ready,
  min_room_players, Message, emit_event, emit_error, emit_room_config, reset_spawn_engine,
}
use libcore.ToosType.Context.Lobby.{is_host, all_are_ready, drop_deck, start_game}

ready_le : (ps : List PlayerState) → count_ready ps ≤ count_here ps
unfolding count_ready count_here
ready_le [] = omega arith
ready_le (p ∷ ps) = let ih = ready_le ps in ground arith

-- When the counts agree, every connected player is ready.
ready_each :
    (ps : List PlayerState)
    → count_ready ps ≡ count_here ps
    → (j : ℕ) → is_here (get_or ps j no_player) ≡ true
    → (get_or ps j no_player).ready ≡ true
unfolding count_ready count_here is_here
ready_each [] h j here = ground arith
ready_each (p ∷ ps) h zero here = let le = ready_le ps in ground arith
ready_each (p ∷ ps) h (suc j) here = let le = ready_le ps in ready_each ps (ground arith) j here

-- What a start needs.
pub record CanStart (ctx : GameContext) (conn now_ms : ℕ) : Type 0 where
  pub from_somebody : 0 < conn
  pub at_some_time : 0 < now_ms
  pub was_waiting : ctx.room.state ≡ waiting
  pub host : is_host ctx conn ≡ true
  pub enough : min_room_players ≤ count_here ctx.players
  pub all_ready :
      (j : ℕ)
      → is_here (get_or ctx.players j no_player) ≡ true
      → (get_or ctx.players j no_player).ready ≡ true
  pub had_deck : ctx.spawn.loaded ≡ true
  pub has_time : now_ms + ctx.room.profile.countdown_ms ≤ uint64_max

-- What a start that succeeds leaves.
pub record Started (ctx : GameContext) (now_ms : ℕ) (after : GameContext) : Type 0 where
  pub counts_down : after.room.state ≡ countdown
  pub ends_at : after.room.countdown_ends_at_ms ≡ now_ms + ctx.room.profile.countdown_ms
  pub same_players : after.players ≡ ctx.players
  pub same_deck : after.spawn ≡ ctx.spawn

-- What a refused start leaves: the room and its players, and the deck or a new one.
pub record Refused (ctx after : GameContext) : Type 0 where
  pub same_room : after.room ≡ ctx.room
  pub same_players : after.players ≡ ctx.players
  pub deck : (after.spawn ≡ ctx.spawn) ⊎ (after.spawn ≡ init_spawn ctx.room.profile.random_seed)

pub Outcome : GameContext → ℕ → ℕ → Bool × GameContext → Type 0
Outcome ctx conn now_ms r =
    ((r.0 ≡ true) × CanStart ctx conn now_ms × Started ctx now_ms (r.1))
    ⊎ ((r.0 ≡ false) × ¬ (CanStart ctx conn now_ms) × Refused ctx (r.1))

is_waiting_lem : (s : State) → is_waiting s ≡ true → s ≡ waiting
unfolding is_waiting
is_waiting_lem s h = ground arith

start_countdown_lem :
    (r : Room) (now_ms : ℕ)
    → r.state ≡ waiting
    → now_ms ≤ uint64_max
    → (((start_countdown r now_ms).0 ≡ false)
        × (uint64_max < now_ms + r.profile.countdown_ms)
        × ((start_countdown r now_ms).1 ≡ r))
      ⊎ (((start_countdown r now_ms).0 ≡ true)
          × (now_ms + r.profile.countdown_ms ≤ uint64_max)
          × ((start_countdown r now_ms).1.state ≡ countdown)
          × ((start_countdown r now_ms).1.countdown_ends_at_ms ≡ now_ms + r.profile.countdown_ms))
unfolding start_countdown make_deadline
start_countdown_lem r now_ms w h = ground arith

all_are_ready_lem :
    (ps : List PlayerState)
    → all_are_ready ps ≡ true
    → (min_room_players ≤ count_here ps) × (count_ready ps ≡ count_here ps)
unfolding all_are_ready
all_are_ready_lem ps h = ground arith

ready_count :
    (ps : List PlayerState)
    → ((j : ℕ) → is_here (get_or ps j no_player) ≡ true → (get_or ps j no_player).ready ≡ true)
    → count_ready ps ≡ count_here ps
unfolding count_ready count_here is_here
ready_count [] h = refl
ready_count (p ∷ ps) h =
    let first = h 0 in let ih = ready_count ps (λ j here. h (suc j) here) in ground arith

all_are_ready-true :
    (ctx : GameContext) (conn now_ms : ℕ)
    → CanStart ctx conn now_ms
    → all_are_ready ctx.players ≡ true
unfolding all_are_ready
all_are_ready-true ctx conn now_ms c =
    let n = c.enough in let same = ready_count ctx.players c.all_ready in ground arith

is_waiting-true : (s : State) → s ≡ waiting → is_waiting s ≡ true
unfolding is_waiting
is_waiting-true s h = ground arith

Refused-deck : (ctx : GameContext) → Refused ctx (drop_deck ctx)
unfolding drop_deck reset_spawn_engine
Refused-deck ctx = elim (Bool-cases ctx.spawn.loaded) [
  | inl e ↦ simp (e) (record { same_room = refl; same_players = refl; deck = inr refl })
  | inr e ↦ simp (e) (record { same_room = refl; same_players = refl; deck = inl refl })
]

Refused-same : (ctx : GameContext) → Refused ctx ctx
Refused-same ctx = record { same_room = refl; same_players = refl; deck = inl refl }

told :
    (ctx after : GameContext) (conn : ℕ) (msg : Message)
    → Refused ctx after
    → Refused ctx (emit_error after conn msg)
unfolding emit_error emit_event
told ctx after conn msg r = record {
  same_room = r.same_room;
  same_players = r.same_players;
  deck = r.deck;
}

nobody : {conn now_ms : ℕ} → 0 < conn → 0 < now_ms → (conn == 0 || now_ms == 0) ≡ true → ⊥
nobody h k e = ground arith

nonzero_conn : (conn now_ms : ℕ) → (conn == 0 || now_ms == 0) ≡ false → 0 < conn
nonzero_conn conn now_ms e = ground arith

nonzero_now : (conn now_ms : ℕ) → (conn == 0 || now_ms == 0) ≡ false → 0 < now_ms
nonzero_now conn now_ms e = ground arith

not_started :
    (ctx : GameContext) (room : Room)
    → room ≡ ctx.room
    → Refused ctx (reset_spawn_engine (record ctx { room = room }))
unfolding reset_spawn_engine
not_started ctx room h = record {
  same_room = h;
  same_players = refl;
  deck = inr (ap (λ r. init_spawn r.profile.random_seed) h);
}

-- A start succeeds exactly when it comes from the host of a waiting room, at a time other than 0, with two
-- connected players or more who are all ready, a deck, and a countdown that ends below 2^64, which it begins;
-- a start that is refused leaves the room and its players.
pub start_game_lem :
    (ctx : GameContext) (conn now_ms : ℕ)
    → now_ms ≤ uint64_max
    → Outcome ctx conn now_ms (start_game ctx conn now_ms)
unfolding Outcome start_game emit_room_config emit_event
start_game_lem ctx conn now_ms h =
    let same = Refused-same ctx in
    let dropped = Refused-deck ctx in
    elim (Bool-cases (conn == 0 || now_ms == 0)) [
      | inl a ↦ simp (a) (inr (refl, (λ s. (nobody s.from_somebody s.at_some_time a)), same))
      | inr a ↦ elim (Bool-cases (is_waiting ctx.room.state)) [
        | inr b ↦
            simp (a, b)
              (inr (
                refl,
                (λ s. absurd (cc (is_waiting-true _ s.was_waiting, b))),
                told ctx ctx _ _ same,
              ))
        | inl b ↦ elim (Bool-cases (is_host ctx conn)) [
          | inr c ↦
              simp (a, b, c) (inr (refl, (λ s. absurd (cc (s.host, c))), told ctx _ _ _ dropped))
          | inl c ↦ elim (Bool-cases (all_are_ready ctx.players)) [
            | inr d ↦
                simp (a, b, c, d)
                  (inr (
                    refl,
                    (λ s. absurd (cc (all_are_ready-true ctx conn now_ms s, d))),
                    told ctx _ _ _ dropped,
                  ))
            | inl d ↦ elim (Bool-cases ctx.spawn.loaded) [
              | inr e ↦
                  simp (a, b, c, d, e)
                    (inr (refl, (λ s. absurd (cc (s.had_deck, e))), told ctx ctx _ _ same))
              | inl e ↦
                  simp (a, b, c, d, e)
                    (elim (start_countdown_lem ctx.room now_ms (is_waiting_lem _ b) h) [
                      | inl (late, far, room) ↦ simp (late) (
                          inr (
                            refl,
                            (λ s. absurd (omega (arith, far, s.has_time))),
                            told ctx _ _ _ (not_started ctx _ room),
                          ))
                      | inr (ok, fits, state, ends) ↦
                          let (two, ready) = all_are_ready_lem ctx.players d in
                          simp (ok) (
                            inl (
                              refl,
                              record {
                                from_somebody = nonzero_conn conn now_ms a;
                                at_some_time = nonzero_now conn now_ms a;
                                was_waiting = is_waiting_lem _ b;
                                host = c;
                                enough = two;
                                all_ready = ready_each ctx.players ready;
                                had_deck = e;
                                has_time = fits;
                              },
                              record {
                                counts_down = state;
                                ends_at = ends;
                                same_players = refl;
                                same_deck = refl;
                              },
                            ))
                    ])
            ]
          ]
        ]
      ]
    ]
