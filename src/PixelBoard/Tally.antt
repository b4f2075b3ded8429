-- ===== src/PixelBoard/Tally.antt =====
-- How many pixels each team holds.
use libcore.Base.{ℕ, zero, suc, ◌+◌, ◌≤◌, ◌≡◌, arith, List, [], ◌∷◌, length, get_or}
use libcore.Base.Tally.{tally}

tallies-le : (ps : List ℕ) → tally 1 ps + tally 2 ps + tally 0 ps ≤ length ps
unfolding tally
tallies-le [] = omega arith
tallies-le (p ∷ ps) = ground (arith, tallies-le ps)

-- Where the three tallies make up the canvas, every pixel is one of the three.
pub get_or_le_two :
    (ps : List ℕ) (i : ℕ) → tally 1 ps + tally 2 ps + tally 0 ps ≡ length ps → get_or ps i 0 ≤ 2
unfolding tally
get_or_le_two [] i h = omega arith
get_or_le_two (p ∷ ps) zero h = ground (arith, tallies-le ps)
get_or_le_two (p ∷ ps) (suc i) h = get_or_le_two ps i (ground (arith, tallies-le ps))
