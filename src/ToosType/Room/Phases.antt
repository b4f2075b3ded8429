-- ===== src/ToosType/Room/Phases.antt =====
-- src/toos_type_room.c: the phases of a game and its whole duration.
use libcore.Base.{ℕ, ◌+◌, ◌-◌, ◌≤◌, ◌<◌, ◌≡◌, List, [], ◌∷◌, length, arith}
use libcore.ToosType.Room.{
  Room, PhaseProfile, phase_at, phase_from, total_from, total_duration_ms, max_phases, uint64_max,
}

-- The times at which the phases end, counted from the start.
unfoldable pub sum_durations : List PhaseProfile → ℕ
sum_durations [] = 0
sum_durations (p ∷ ps) = p.duration_ms + sum_durations ps

phase_from_bounds :
    (ps : List PhaseProfile) (i c e : ℕ)
    → i + length ps ≡ max_phases
    → (1 ≤ phase_from ps i c e) × (phase_from ps i c e ≤ max_phases)
unfolding phase_from
phase_from_bounds [] i c e l = (omega arith, omega arith)
phase_from_bounds (p ∷ ps) i c e l =
    let ih = phase_from_bounds ps (i + 1) (c + p.duration_ms) e (omega arith) in ground arith

phase_from_ge :
    (ps : List PhaseProfile) (i c e : ℕ)
    → i + length ps ≡ max_phases
    → 0 < length ps
    → i + 1 ≤ phase_from ps i c e
unfolding phase_from
phase_from_ge [] i c e l n = omega arith
phase_from_ge (p ∷ []) i c e l n = ground arith
phase_from_ge (p ∷ q ∷ ps) i c e l n =
    let ih = phase_from_ge (q ∷ ps) (i + 1) (c + p.duration_ms) e (omega arith) (omega arith) in
    ground arith

phase_from_monotone :
    (ps : List PhaseProfile) (i c e f : ℕ)
    → i + length ps ≡ max_phases
    → e ≤ f
    → phase_from ps i c e ≤ phase_from ps i c f
unfolding phase_from
phase_from_monotone [] i c e f l m = omega arith
phase_from_monotone (p ∷ []) i c e f l m = ground arith
phase_from_monotone (p ∷ q ∷ ps) i c e f l m =
    let ih = phase_from_monotone (q ∷ ps) (i + 1) (c + p.duration_ms) e f (omega arith) m in
    let low = phase_from_ge (q ∷ ps) (i + 1) (c + p.duration_ms) f (omega arith) (omega arith) in
    ground arith

-- A room with three phases is at every time in one of them.
pub phase_at_bounds :
    (r : Room) (now : ℕ)
    → length r.profile.phases ≡ max_phases
    → (1 ≤ phase_at r now) × (phase_at r now ≤ max_phases)
unfolding phase_at
phase_at_bounds r now l =
    let b = phase_from_bounds r.profile.phases 0 0 (now - r.game_start_ms) (omega arith) in
    ground arith

-- As the clock goes on, a room never goes back to an earlier phase.
pub phase_at_monotone :
    (r : Room) (now later : ℕ)
    → length r.profile.phases ≡ max_phases
    → now ≤ later
    → phase_at r now ≤ phase_at r later
unfolding phase_at
phase_at_monotone r now later l m =
    let step =
      phase_from_monotone r.profile.phases 0 0 (now - r.game_start_ms) (later - r.game_start_ms)
        (omega arith) (omega arith) in
    let low = phase_from_bounds r.profile.phases 0 0 (later - r.game_start_ms) (omega arith) in
    ground arith

total_from-sum :
    (ps : List PhaseProfile) (total : ℕ)
    → total + sum_durations ps ≤ uint64_max
    → total_from ps total ≡ total + sum_durations ps
unfolding total_from sum_durations
total_from-sum [] total l = omega arith
total_from-sum (p ∷ ps) total l =
    let ih = total_from-sum ps (total + p.duration_ms) (omega arith) in ground arith

-- The whole duration is the sum of the phases, where a `uint64_t` holds it.
pub total_duration_ms-sum :
    (r : Room)
    → sum_durations r.profile.phases ≤ uint64_max
    → total_duration_ms r ≡ sum_durations r.profile.phases
unfolding total_duration_ms
total_duration_ms-sum r l =
    let s = total_from-sum r.profile.phases 0 (omega arith) in omega (arith, s)
