-- ===== src/PixelBoard/Paint.antt =====
-- What painting changes: the pixel painted, and nothing else.
use libcore.Base.{ℕ, ◌+◌, ◌*◌, ◌%◌, ◌^◌, ◌<◌, ◌≤◌, ◌≡◌, ◌≢◌, ◌⊎◌, arith, ◌&&◌}
use libcore.Base.{◌==◌, if◌then◌else◌, get_or-set_self, get_or-set_ne, Bool, true, false, ◌↔◌}
use libcore.PixelBoard.{PixelBoard, PixelPaintResult, paint, get, index, error, unchanged, changed}
use libcore.PixelBoard.{team_empty, team_red, team_blue}
use libcore.PixelBoard.Invariant.{IsValid, index_in_range}

row_apart : (w x y x' y' : ℕ) → x < w → y < y' → y * w + x < y' * w + x'
row_apart w x y x' y' hx hy = let rows : (y + 1) * w ≤ y' * w = grind arith in omega arith

-- Two points of the board with one index are one point.
index_injective : (w x y x' y' : ℕ) → x < w → x' < w → y * w + x ≡ y' * w + x' → (x ≡ x') × (y ≡ y')
index_injective w x y x' y' hx hx' e =
    let below = row_apart w x y x' y' hx in
    let above = row_apart w x' y' x y hx' in let same : y ≡ y' = grind arith in (grind arith, same)

-- After a paint inside the board by one of the two teams, the pixel painted reads as that team,
-- and every other point of the board reads as before.
pub get-paint :
    {b : PixelBoard} (x y team x' y' : ℕ)
    → IsValid b
    → x < b.width
    → y < b.height
    → (team ≡ team_red) ⊎ (team ≡ team_blue)
    → get (paint b x y team).1 x' y' ≡ (if x' == x && y' == y then team else get b x' y')
unfolding get paint
get-paint {b} x y team x' y' v hx hy ht =
    let i = index b x y in
    let j = index b x' y' in
    ground (
      arith,
      index_in_range b.width b.height x y hx hy,
      index_injective b.width x y x' y' hx,
      get_or-set_self b.pixels i team team_empty,
      get_or-set_ne b.pixels i j team team_empty,
    )

abbrev pub is_changed : PixelPaintResult → Bool
is_changed changed = true
is_changed _ = false

-- A paint is an error exactly when the point is off the board or the team is not one of the two,
-- and without effect exactly when it is no error and the pixel is already the team's. The version
-- moves one on, modulo 2 ^ 64, exactly on the other paints; a paint that is not one of those leaves
-- the whole board as it was.
pub paint_outcome :
    (b : PixelBoard) (x y team : ℕ)
    → (((paint b x y team).0 ≡ error)
        ↔ ((b.width ≤ x) ⊎ (b.height ≤ y) ⊎ ((team ≢ team_red) × (team ≢ team_blue))))
      × (((paint b x y team).0 ≡ unchanged) ↔ (
          (x < b.width)
          × (y < b.height)
          × ((team ≡ team_red) ⊎ (team ≡ team_blue))
          × (get b x y ≡ team)))
      × ((paint b x y team).1.sequence
          ≡ (if is_changed (paint b x y team).0 then (b.sequence + 1) % 2 ^ 64 else b.sequence))
      × ((if is_changed (paint b x y team).0 then b else (paint b x y team).1) ≡ b)
unfolding paint get
paint_outcome b x y team =
    ((ground arith, ground arith), (ground arith, ground arith), ground arith, ground arith)
