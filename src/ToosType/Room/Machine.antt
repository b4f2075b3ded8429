-- ===== src/ToosType/Room/Machine.antt =====
-- src/toos_type_room.c: the states of a room, and the times that go with each.
use libcore.Base.{
  ℕ, suc, ◌+◌, ◌*◌, ◌/◌, ◌≤◌, false, ◌||◌, ◌≡◌, refl, ap, List, [], ◌∷◌, ltb, length, arith,
  Bool-cases, inl, inr, ◌⊎◌,
}
use libcore.ToosType.Room.{
  Room, State, waiting, countdown, playing, result, TickResult, tick_none, game_started,
  phase_changed, game_ended, GameProfile, PhaseProfile, init, make_deadline, set_duration_minutes,
  with_duration, start_countdown, cancel_countdown, start_playing, tick, total_duration_ms,
  max_phases, uint64_max,
}
use libcore.ToosType.Room.Phases.{sum_durations, phase_at_bounds, total_duration_ms-sum}

-- What a tick reports of the states before and after it.
pub data TickEdge : TickResult → State → State → Type 0 where
  stay : {s : State} → TickEdge tick_none s s
  start : TickEdge game_started countdown playing
  change : TickEdge phase_changed playing playing
  finish : TickEdge game_ended playing result
  miss : TickEdge game_ended countdown result

start_playing-edge :
    (r : Room) (now : ℕ)
    → TickEdge ((start_playing r now).0) countdown ((start_playing r now).1.state)
unfolding start_playing
start_playing-edge r now = grind (arith, start, miss)

-- A tick moves the room along one of these edges, and reports which: a waiting room and a finished one
-- stay, a countdown ends in the game or, too late, in the result, and a game ends in the result.
pub tick-edge : (r : Room) (now : ℕ) → TickEdge ((tick r now).0) r.state ((tick r now).1.state)
unfolding tick
tick-edge r now = let began = start_playing-edge r now in grind (arith, stay, change, finish)

-- The times of a room in each of its states.
unfoldable pub TimesOf : Room → State → Type 0
TimesOf r waiting = (r.game_start_ms ≡ 0) × (r.game_end_ms ≡ 0) × (r.countdown_ends_at_ms ≡ 0)
TimesOf r countdown =
    (r.game_start_ms ≡ 0)
    × (r.game_end_ms ≡ 0)
    × (r.countdown_ends_at_ms ≡ r.state_start_ms + r.profile.countdown_ms)
TimesOf r playing =
    (r.game_start_ms ≡ r.countdown_ends_at_ms)
    × (r.game_end_ms ≡ r.game_start_ms + sum_durations r.profile.phases)
    × (1 ≤ r.current_phase)
    × (r.current_phase ≤ max_phases)
TimesOf r result = Unit

pub record IsValid (r : Room) : Type 0 where
  pub three_phases : length r.profile.phases ≡ max_phases
  pub fits : sum_durations r.profile.phases ≤ uint64_max
  pub times : TimesOf r r.state

init-IsValid :
    (room_id : ℕ) (profile : GameProfile)
    → length profile.phases ≡ max_phases
    → sum_durations profile.phases ≤ uint64_max
    → IsValid (init room_id profile)
unfolding init TimesOf
init-IsValid room_id profile l m = ground arith

-- Starting a countdown, cancelling it and ticking keep the times of a room in step with its state.
pub start_countdown-IsValid : (r : Room) (now : ℕ) → IsValid r → IsValid ((start_countdown r now).1)
unfolding start_countdown make_deadline TimesOf
start_countdown-IsValid r now v = ground arith

pub cancel_countdown-IsValid : (r : Room) (now : ℕ) → IsValid r → IsValid (cancel_countdown r now)
unfolding cancel_countdown TimesOf
cancel_countdown-IsValid r now v = ground arith

pub tick-IsValid : (r : Room) (now : ℕ) → IsValid r → IsValid ((tick r now).1)
unfolding tick start_playing make_deadline TimesOf
tick-IsValid r now v =
    let r1 : Room = record r { game_start_ms = r.countdown_ends_at_ms } in
    let total = total_duration_ms-sum r1 v.fits in
    let r2 : Room = record r1 { game_end_ms = r.countdown_ends_at_ms + total_duration_ms r1 } in
    let phase = phase_at_bounds r now v.three_phases in
    let first = phase_at_bounds r2 now v.three_phases in ground arith

length-with_duration : (d : ℕ) (ps : List PhaseProfile) → length (with_duration d ps) ≡ length ps
unfolding with_duration
length-with_duration d [] = refl
length-with_duration d (p ∷ ps) = ap suc (length-with_duration d ps)

sum-with_duration :
    (d : ℕ) (ps : List PhaseProfile) → length ps ≡ 3 → sum_durations (with_duration d ps) ≡ 3 * d
unfolding with_duration sum_durations
sum-with_duration d (p ∷ q ∷ r ∷ []) l = omega arith
sum-with_duration d [] l = omega arith
sum-with_duration d (p ∷ []) l = omega arith
sum-with_duration d (p ∷ q ∷ []) l = omega arith
sum-with_duration d (p ∷ q ∷ r ∷ s ∷ ps) l = omega arith

-- Setting the duration keeps a valid room valid, and where it is done the game lasts exactly the
-- minutes asked for, of which there are one to five.
pub set_duration_minutes_lem :
    (r : Room) (minutes : ℕ)
    → IsValid r
    → IsValid ((set_duration_minutes r minutes).1)
      × (((set_duration_minutes r minutes).0 ≡ false)
          ⊎ ((total_duration_ms ((set_duration_minutes r minutes).1) ≡ minutes * 60000)
              × (1 ≤ minutes)
              × (minutes ≤ 5)))
unfolding set_duration_minutes TimesOf
set_duration_minutes_lem r minutes v =
    let d = minutes * 60 * 1000 / max_phases in
    let ps = with_duration d r.profile.phases in
    let same = length-with_duration d r.profile.phases in
    let sum : sum_durations ps ≡ 3 * d = sum-with_duration d r.profile.phases v.three_phases in
    let r1 : Room = record r { profile = record r.profile { phases = ps } } in
    elim (Bool-cases (ltb minutes 1 || ltb 5 minutes)) [
      | inl e ↦ ground arith
      | inr e ↦ let total = total_duration_ms-sum r1 (ground arith) in ground arith
    ]

-- The operations of a room, in whatever order they come.
pub data RoomStep (r : Room) : Room → Type 0 where
  start_step : (now : ℕ) → RoomStep r ((start_countdown r now).1)
  cancel_step : (now : ℕ) → RoomStep r (cancel_countdown r now)
  tick_step : (now : ℕ) → RoomStep r ((tick r now).1)
  duration_step : (minutes : ℕ) → RoomStep r ((set_duration_minutes r minutes).1)

pub data Reach (r : Room) : Room → Type 0 where
  here : Reach r r
  next : {s t : Room} → Reach r s → RoomStep s t → Reach r t

RoomStep-IsValid : {r s : Room} → RoomStep r s → IsValid r → IsValid s
RoomStep-IsValid {r} (start_step now) v = start_countdown-IsValid r now v
RoomStep-IsValid {r} (cancel_step now) v = cancel_countdown-IsValid r now v
RoomStep-IsValid {r} (tick_step now) v = tick-IsValid r now v
RoomStep-IsValid {r} (duration_step minutes) v = (set_duration_minutes_lem r minutes v).0

-- Every room that a new one comes to, by any sequence of operations, has three phases and the times
-- of its state: none while it waits, the end of the countdown while that runs, and start, end and a
-- phase while it plays.
pub Reach-IsValid : {r s : Room} → Reach r s → IsValid r → IsValid s
Reach-IsValid here v = v
Reach-IsValid (next path step) v = RoomStep-IsValid step (Reach-IsValid path v)
