-- ===== src/ToosType/Room.antt =====
-- src/toos_type_room.c and include/toos_type_room.h: the states of a room and their times. No pointer is
-- NULL. `profile.phases` is an array of three; times are `uint64_t`, and the fields of the profile
-- `uint32_t`.
pub mod Phases
pub mod Machine
mod Tests
use libcore.Base.{ℕ, zero, suc, ◌+◌, ◌-◌, ◌*◌, ◌/◌, ◌%◌, ◌^◌, Bool, true, false, not, ◌||◌}
use libcore.Base.{Option, none, some, List, [], ◌∷◌, ltb, leb, ◌==◌, if◌then◌else◌}

abbrev pub uint64_max : ℕ
uint64_max = 2 ^ 64 - 1

abbrev pub max_phases : ℕ
max_phases = 3

abbrev pub min_game_minutes : ℕ
min_game_minutes = 1

abbrev pub max_game_minutes : ℕ
max_game_minutes = 5

pub data State : Type 0 where
  waiting countdown playing result : State

pub record PhaseProfile : Type 0 where
  pub duration_ms : ℕ
  pub input_timeout_ms : ℕ
  pub correct_score : ℕ

pub record GameProfile : Type 0 where
  pub countdown_ms : ℕ
  pub random_seed : ℕ
  pub play_score_per_sec : ℕ
  pub accuracy_score_multiplier : ℕ
  pub phases : List PhaseProfile

pub data TickResult : Type 0 where
  tick_none game_started phase_changed game_ended : TickResult

pub record Room : Type 0 where
  pub room_id : ℕ
  pub profile : GameProfile
  pub state : State
  pub language : ℕ
  pub language_locked : Bool
  pub host_player_no : ℕ
  pub state_start_ms : ℕ
  pub game_start_ms : ℕ
  pub game_end_ms : ℕ
  pub countdown_ends_at_ms : ℕ
  pub current_phase : ℕ

unfoldable pub make_deadline : ℕ → ℕ → Option ℕ
make_deadline now_ms duration_ms =
    if ltb (uint64_max - now_ms) duration_ms then none else some (now_ms + duration_ms)

unfoldable pub init : ℕ → GameProfile → Room
init room_id profile = record {
  room_id = room_id;
  profile = profile;
  state = waiting;
  language = 0;
  language_locked = false;
  host_player_no = 0;
  state_start_ms = 0;
  game_start_ms = 0;
  game_end_ms = 0;
  countdown_ends_at_ms = 0;
  current_phase = 0;
}

-- The loop on the phases that are left.
pub total_from : List PhaseProfile → ℕ → ℕ
total_from [] total = total
total_from (p ∷ ps) total =
    let rest = total_from ps (total + p.duration_ms) in
    if ltb (uint64_max - total) p.duration_ms then 0 else rest

pub total_duration_ms : Room → ℕ
total_duration_ms r = total_from r.profile.phases 0

pub with_duration : ℕ → List PhaseProfile → List PhaseProfile
with_duration phase_ms [] = []
with_duration phase_ms (p ∷ ps) = record p { duration_ms = phase_ms } ∷ with_duration phase_ms ps

unfoldable pub set_duration_minutes : Room → ℕ → Bool × Room
set_duration_minutes r minutes = elim r.state [
  | waiting ↦
      if ltb minutes min_game_minutes || ltb max_game_minutes minutes
      then (false, r)
      else let phase_ms = minutes * 60 * 1000 / max_phases in
        (
          true,
          record r {
            profile = record r.profile { phases = with_duration phase_ms r.profile.phases };
          },
        )
  | _ ↦ (false, r)
]

-- The loop from phase index `i` on.
pub phase_from : List PhaseProfile → ℕ → ℕ → ℕ → ℕ
phase_from [] i cumulative elapsed = max_phases
phase_from (p ∷ ps) i cumulative elapsed =
    let rest = phase_from ps (i + 1) (cumulative + p.duration_ms) elapsed in
    if ltb elapsed (cumulative + p.duration_ms) then i + 1 else rest

pub phase_at : Room → ℕ → ℕ
phase_at r now_ms =
    if r.game_start_ms == 0 || leb now_ms r.game_start_ms
    then 1
    else phase_from r.profile.phases 0 0 (now_ms - r.game_start_ms)

-- `phases[i]` of the profile; the code indexes it with a phase that is in range.
pub phase_profile : List PhaseProfile → ℕ → PhaseProfile
phase_profile [] i = record { duration_ms = 0; input_timeout_ms = 0; correct_score = 0 }
phase_profile (p ∷ ps) zero = p
phase_profile (p ∷ ps) (suc i) = phase_profile ps i

pub sentence_timeout_ms : Room → ℕ → ℕ
sentence_timeout_ms r now_ms =
    let phase = phase_at r now_ms in
    if ltb phase 1 || ltb max_phases phase
    then 0
    else (phase_profile r.profile.phases (phase - 1)).input_timeout_ms

unfoldable pub start_countdown : Room → ℕ → Bool × Room
start_countdown r now_ms = elim r.state [
  | waiting ↦ elim (make_deadline now_ms r.profile.countdown_ms) [
    | none ↦ (false, r)
    | some deadline ↦ (
      true,
      record r { state = countdown; state_start_ms = now_ms; countdown_ends_at_ms = deadline },
    )
  ]
  | _ ↦ (false, r)
]

unfoldable pub cancel_countdown : Room → ℕ → Room
cancel_countdown r now_ms = elim r.state [
  | countdown ↦ record r {
    state = waiting;
    state_start_ms = now_ms;
    countdown_ends_at_ms = 0;
    game_start_ms = 0;
    game_end_ms = 0;
    current_phase = 0;
  }
  | _ ↦ r
]

-- The end of a countdown: the game starts at the time the countdown was to end.
pub start_playing : Room → ℕ → TickResult × Room
start_playing r now_ms =
    let r1 = record r { game_start_ms = r.countdown_ends_at_ms } in
    let total = total_duration_ms r1 in
    if total == 0
    then (game_ended, record r1 { state = result; state_start_ms = now_ms })
    else elim (make_deadline r1.game_start_ms total) [
      | none ↦ (game_ended, record r1 { state = result; state_start_ms = now_ms })
      | some game_end ↦
          let r2 = record r1 { game_end_ms = game_end } in
          if leb game_end now_ms
          then (
            game_ended,
            record r2 { state = result; state_start_ms = game_end; current_phase = max_phases },
          )
          else (
            game_started,
            record r2 {
              state = playing;
              state_start_ms = r2.game_start_ms;
              current_phase = phase_at r2 now_ms;
            },
          )
    ]

pub tick : Room → ℕ → TickResult × Room
tick r now_ms = elim r.state [
  | countdown ↦ if leb r.countdown_ends_at_ms now_ms then start_playing r now_ms else (tick_none, r)
  | playing ↦
      if leb r.game_end_ms now_ms
      then (game_ended, record r { state = result; state_start_ms = r.game_end_ms })
      else let new_phase = phase_at r now_ms in
        if not (new_phase == r.current_phase)
        then (phase_changed, record r { current_phase = new_phase })
        else (tick_none, r)
  | _ ↦ (tick_none, r)
]
