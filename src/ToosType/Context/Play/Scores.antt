-- ===== src/ToosType/Context/Play/Scores.antt =====
-- src/toos_type_game_context.c: the scores that `update_player_stats` computes, and what a submission changes.
use libcore.Base.{
  ℕ, suc, ◌+◌, ◌-◌, ◌*◌, ◌/◌, ◌<◌, ◌≤◌, ◌≡◌, refl, ap, arith, true, false, ltb, leb, Bool-cases,
  inl, inr, min,
}
use native.Mathlib.Nat.{mul-le-mul_right, div-add-mod'}
use libcore.Judge.{uint32_max}
use libcore.ToosType.Room.{Room}
use libcore.ToosType.Context.{PlayerState}
use libcore.ToosType.Context.Play.{
  minus64, saturated, accuracy_of, played_until, update_player_stats, is_unfinished, is_running,
}

quotient_bound : (a b c : ℕ) → 0 < b → a ≤ c * b → a / b ≤ c
quotient_bound a b c l h =
    let q = div-add-mod' a b in
    elim (Bool-cases (leb (a / b) c)) [
      | inl e ↦ ground arith
      | inr e ↦
          let m = mul-le-mul_right {m = suc c} {n = a / b} b (ground arith) in
          omega (arith, q, m, l, h)
    ]

-- The accuracy is at most 100 per cent, and that exactly when there is a correct answer and no other one.
accuracy_bound : (p : PlayerState) → accuracy_of p ≤ 10000
unfolding accuracy_of
accuracy_bound p =
    elim (Bool-cases (ltb 0 (p.correct_count + p.incorrect_count + p.expired_count))) [
      | inr e ↦ rw (e) (omega arith)
      | inl e ↦
          let attempts = p.correct_count + p.incorrect_count + p.expired_count in
          rw (e)
            (quotient_bound (p.correct_count * 10000) attempts 10000 (ground arith) (omega arith))
    ]

accuracy_full :
    (p : PlayerState)
    → accuracy_of p ≡ 10000
    → (0 < p.correct_count) × (p.incorrect_count ≡ 0) × (p.expired_count ≡ 0)
unfolding accuracy_of
accuracy_full p h =
    elim (Bool-cases (ltb 0 (p.correct_count + p.incorrect_count + p.expired_count))) [
      | inr e ↦ ground arith
      | inl e ↦
          let attempts = p.correct_count + p.incorrect_count + p.expired_count in
          let q = div-add-mod' (p.correct_count * 10000) attempts in
          let here : p.correct_count * 10000 / attempts ≡ 10000 = ground (arith, e, h) in
          let same : p.correct_count * 10000 / attempts * attempts ≡ 10000 * attempts =
            ap (λ x. x * attempts) here in
          let all : 10000 * attempts ≤ p.correct_count * 10000 = omega (arith, same, q) in
          (ground (arith, all), omega (arith, all), omega (arith, all))
    ]

-- What the scores of a player are, after they were computed anew.
pub record Stats (room : Room) (p p' : PlayerState) (now_ms : ℕ) : Type 0 where
  pub accuracy : p'.accuracy_x100 ≤ 10000
  pub full :
      p'.accuracy_x100 ≡ 10000
      → (0 < p.correct_count) × (p.incorrect_count ≡ 0) × (p.expired_count ≡ 0)
  pub total : p'.total_score ≡ min uint32_max (p'.play_score + p'.phase_score + p'.accuracy_score)
  pub play : p'.play_score ≤ uint32_max
  pub speed : p'.wpm ≤ uint32_max
  pub counts :
      (p'.correct_count ≡ p.correct_count)
      × (p'.incorrect_count ≡ p.incorrect_count)
      × (p'.expired_count ≡ p.expired_count)
      × (p'.phase_score ≡ p.phase_score)
  pub played :
      is_unfinished p ≡ true
      → is_running room.state ≡ true
      → room.game_start_ms < now_ms
      → p'.played_ms
        ≡ min (now_ms - room.game_start_ms) (minus64 room.game_end_ms room.game_start_ms)
  pub stopped : is_unfinished p ≡ false → p'.played_ms ≡ p.played_ms

saturated-min : (x : ℕ) → saturated x ≡ min uint32_max x
unfolding saturated
saturated-min x = ground arith

saturated_bound : (x : ℕ) → saturated x ≤ uint32_max
unfolding saturated
saturated_bound x = ground arith

-- Computing the scores of a player: the total is the sum, cut at 2^32 - 1; the accuracy is at most 100 per
-- cent and that only without a wrong or late answer; the time played stops at the end of the game, and with
-- the player's finish.
pub update_player_stats_lem :
    (room : Room) (p : PlayerState) (now_ms : ℕ)
    → Stats room p (update_player_stats room p now_ms) now_ms
unfolding update_player_stats played_until
update_player_stats_lem room p now_ms = record {
  accuracy = accuracy_bound p;
  full = accuracy_full p;
  total = saturated-min _;
  play = saturated_bound _;
  speed =
      (let s = saturated_bound (p.correct_chars * 12000 / played_until room p now_ms) in
        ground arith);
  counts = (refl, refl, refl, refl);
  played = λ u r l. (ground arith);
  stopped = λ u. (ground arith);
}
