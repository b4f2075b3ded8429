-- ===== src/ToosType/Context/Roster/Host.antt =====
-- src/toos_type_game_context.c: who is the host.
use libcore.Base.{
  ℕ, zero, suc, ◌<◌, ◌≤◌, ◌≡◌, refl, arith, true, false, ◌&&◌, List, [], ◌∷◌, ltb, get_or, length,
  Bool-cases, inl, inr,
}
use libcore.ToosType.Room.{uint64_max}
use libcore.ToosType.Context.{
  GameContext, PlayerState, no_player, is_here, oldest_from, recalculate_host,
}

-- Nobody who is here joined before `m`.
pub AllFrom : ℕ → List PlayerState → Type 0
AllFrom m ps =
    (k : ℕ)
    → k < length ps
    → is_here (get_or ps k no_player) ≡ true
    → m ≤ (get_or ps k no_player).join_seq

AllFrom-cons :
    (m : ℕ) (p : PlayerState) (ps : List PlayerState)
    → (is_here p ≡ true → m ≤ p.join_seq)
    → AllFrom m ps
    → AllFrom m (p ∷ ps)
unfolding AllFrom
AllFrom-cons m p ps h hs zero l here = h here
AllFrom-cons m p ps h hs (suc k) l here = hs k (omega (arith, l)) here

AllFrom-le : (m n : ℕ) (ps : List PlayerState) → m ≤ n → AllFrom n ps → AllFrom m ps
unfolding AllFrom
AllFrom-le m n ps h hs k l here = omega (arith, h, hs k l here)

-- The choice among the players: the one who joined first of those here who joined before `m`, or `o`.
pub data Oldest (ps : List PlayerState) (m o : ℕ) (host : ℕ) : Type 0 where
  nobody : host ≡ o → AllFrom m ps → Oldest ps m o host
  somebody :
      (j : ℕ)
      → j < length ps
      → is_here (get_or ps j no_player) ≡ true
      → (get_or ps j no_player).join_seq < m
      → host ≡ (get_or ps j no_player).player_no
      → AllFrom ((get_or ps j no_player).join_seq) ps
      → Oldest ps m o host

Oldest-later :
    (p : PlayerState) (ps : List PlayerState) (m o host : ℕ)
    → (is_here p && ltb p.join_seq m) ≡ false
    → Oldest ps m o host
    → Oldest (p ∷ ps) m o host
Oldest-later p ps m o host h (nobody e all) =
    nobody e (AllFrom-cons m p ps (λ here. (ground arith)) all)
Oldest-later p ps m o host h (somebody j l here low e all) =
    somebody (suc j) (omega (arith, l)) here low e
      (AllFrom-cons _ p ps (λ first. (ground arith)) all)

Oldest-first :
    (p : PlayerState) (ps : List PlayerState) (m o host : ℕ)
    → is_here p ≡ true
    → p.join_seq < m
    → Oldest ps p.join_seq p.player_no host
    → Oldest (p ∷ ps) m o host
Oldest-first p ps m o host h low (nobody e all) =
    somebody 0 (omega arith) h low e (AllFrom-cons p.join_seq p ps (λ here. (omega arith)) all)
Oldest-first p ps m o host h low (somebody j l here less e all) =
    somebody (suc j) (omega (arith, l)) here (omega (arith, low, less)) e
      (AllFrom-cons _ p ps (λ first. (omega (arith, less))) all)

pub oldest_from_lem : (ps : List PlayerState) (m o : ℕ) → Oldest ps m o (oldest_from ps m o)
unfolding oldest_from AllFrom
oldest_from_lem [] m o = nobody refl (λ k l here. absurd (omega (arith, l)))
oldest_from_lem (p ∷ ps) m o = elim (Bool-cases (is_here p && ltb p.join_seq m)) [
  | inl e ↦ rw (e) (
      Oldest-first p ps m o _ (ground arith) (ground arith)
        (oldest_from_lem ps p.join_seq p.player_no))
  | inr e ↦ rw (e) (Oldest-later p ps m o _ e (oldest_from_lem ps m o))
]

-- The host is a connected player who joined no later than any other; there is no host (0) only when nobody
-- is connected whose number in the order of joining is below 2^64 - 1.
pub recalculate_host_lem :
    (ctx : GameContext)
    → Oldest ctx.players uint64_max 0 ((recalculate_host ctx).room.host_player_no)
unfolding recalculate_host
recalculate_host_lem ctx = oldest_from_lem ctx.players uint64_max 0
