-- ===== src/ToosType/Spawn/Rand.antt =====
-- src/toos_type_spawn.c: the generator, and why rejecting draws comes to an end.
use libcore.Base.{
  ℕ, ◌-◌, ◌/◌, ◌%◌, ◌^◌, ◌≤◌, ◌<◌, ◌≡◌, refl, arith, Option, some, ltb, ◌==◌, ◌||◌, false,
  Bool-cases, inl, inr,
}
use native.Mathlib.Nat.{mod-lt}
use libcore.ToosType.Spawn.{next_state, draw, bounded_rand, rounds}

-- Three states in a row are not all below 2^42.
next_state_escapes :
    (x : ℕ) → x < 2 ^ 42 → next_state x < 2 ^ 42 → 2 ^ 42 ≤ next_state (next_state x)
next_state_escapes x h k = omega arith

-- What a draw gives: some number below the bound.
unfoldable pub Drawn : ℕ → Option (ℕ × ℕ) → Type 0
Drawn bound result = (j : ℕ) × (s : ℕ) × (result ≡ some (j, s)) × (j < bound)

draw_ends : (state t bound : ℕ) → t ≤ 1024 → 0 < bound → Drawn bound (draw rounds t bound state)
unfolding draw Drawn
draw_ends state t bound l m =
    let x1 = next_state state in
    let x2 = next_state x1 in
    let x3 = next_state x2 in
    let escape = next_state_escapes x1 in
    elim (Bool-cases (ltb (x1 / 2 ^ 32) t)) [
      | inr e ↦ (x1 / 2 ^ 32 % bound, x1, rw (e) refl, mod-lt (x1 / 2 ^ 32) m)
      | inl e ↦ elim (Bool-cases (ltb (x2 / 2 ^ 32) t)) [
        | inr f ↦ (x2 / 2 ^ 32 % bound, x2, rw (e, f) refl, mod-lt (x2 / 2 ^ 32) m)
        | inl f ↦
            let high = next_state_escapes x1 (ground arith) (ground arith) in
            let out : ltb (x3 / 2 ^ 32) t ≡ false = ground arith in
            (x3 / 2 ^ 32 % bound, x3, rw (e, f, out) refl, mod-lt (x3 / 2 ^ 32) m)
      ]
    ]

-- The loop of `bounded_rand` ends within three rounds for every bound up to 1024 and from every state of
-- the generator, with a number below the bound.
pub bounded_rand_ends :
    (state bound : ℕ) → 0 < bound → bound ≤ 1024 → Drawn bound (bounded_rand state bound)
unfolding bounded_rand Drawn
bounded_rand_ends state bound l m =
    let small = mod-lt (2 ^ 32 - bound) l in
    elim (Bool-cases (bound == 0 || bound == 1)) [
      | inl e ↦ (0, state, rw (e) refl, l)
      | inr e ↦ rw (e) (draw_ends state ((2 ^ 32 - bound) % bound) bound (omega arith) l)
    ]
