-- ===== src/PixelBoard/Invariant.antt =====
-- The score invariant of the board.
use libcore.Base.{ℕ, ◌+◌, ◌*◌, ◌%◌, ◌^◌, ◌<◌, ◌≤◌, ◌≡◌, arith, Bool, some}
use libcore.Base.{length, length-set, length-replicate}
use libcore.PixelBoard.{PixelBoard, new_pixel_board, clear, paint, index}
use libcore.PixelBoard.{team_empty, team_red, team_blue}
use libcore.Base.Tally.{tally, tally-set, tally-replicate, tally-replicate_self}
use libcore.PixelBoard.Tally.{get_or_le_two}

-- The scores are the numbers of pixels, every pixel is a team, and the canvas has its size.
pub record IsValid (b : PixelBoard) : Type 0 where
  pub wide : b.width < 2 ^ 16
  pub high : b.height < 2 ^ 16
  pub canvas : length b.pixels ≡ b.width * b.height
  pub red : b.red_score ≡ tally team_red b.pixels
  pub blue : b.blue_score ≡ tally team_blue b.pixels
  pub empty : b.empty_count ≡ tally team_empty b.pixels
  pub teams : b.red_score + b.blue_score + b.empty_count ≡ length b.pixels

area_small : (w h : ℕ) → w < 2 ^ 16 → h < 2 ^ 16 → w * h < 2 ^ 32
area_small w h p q = let wide : w * h ≤ 65535 * h = grind arith in omega arith

pub index_in_range : (w h x y : ℕ) → x < w → y < h → y * w + x < w * h
index_in_range w h x y p q = grind arith

-- What the constructor makes is valid.
pub new_pixel_board-IsValid :
    (self_ok pixels_ok : Bool) (w h : ℕ) (b : PixelBoard)
    → w < 2 ^ 16
    → h < 2 ^ 16
    → new_pixel_board self_ok pixels_ok w h ≡ some b
    → IsValid b
unfolding new_pixel_board
new_pixel_board-IsValid self_ok pixels_ok w h b hw hh made =
    let small = area_small w h hw hh in
    let n = w * h % 2 ^ 32 in
    ground (
      arith,
      length-replicate n team_empty,
      tally-replicate team_red team_empty n (omega arith),
      tally-replicate team_blue team_empty n (omega arith),
      tally-replicate_self team_empty n,
    )

-- Clearing the board keeps the invariant.
pub clear-IsValid : {b : PixelBoard} → IsValid b → IsValid (clear b)
unfolding clear
clear-IsValid {b} v =
    let small = area_small b.width b.height v.wide v.high in
    let n = b.width * b.height in
    ground (
      arith,
      length-replicate n team_empty,
      tally-replicate team_red team_empty n (omega arith),
      tally-replicate team_blue team_empty n (omega arith),
      tally-replicate_self team_empty n,
    )

-- Painting keeps the invariant, whatever the coordinates and the team.
pub paint-IsValid : {b : PixelBoard} (x y team : ℕ) → IsValid b → IsValid (paint b x y team).1
unfolding paint
paint-IsValid {b} x y team v =
    let small = area_small b.width b.height v.wide v.high in
    let i = index b x y in
    ground (
      arith,
      index_in_range b.width b.height x y,
      get_or_le_two b.pixels i,
      length-set b.pixels i team,
      tally-set team_red b.pixels i team team_empty,
      tally-set team_blue b.pixels i team team_empty,
      tally-set team_empty b.pixels i team team_empty,
    )
