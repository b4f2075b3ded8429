-- ===== src/PixelBoard/Tests.antt =====
-- The board at a small size, and the theorems at inputs that meet their hypotheses.
use libcore.Base.{◌≡◌, refl, arith, true, some, [], ◌∷◌}
use libcore.PixelBoard.{PixelBoard, new_pixel_board, paint}
use libcore.PixelBoard.{team_red, team_blue}
use libcore.PixelBoard.Invariant.{IsValid, paint-IsValid}
use libcore.Base.Tally.{tally}

abbrev blank : PixelBoard
blank = record {
  width = 2;
  height = 2;
  pixels = 0 ∷ 0 ∷ 0 ∷ 0 ∷ [];
  red_score = 0;
  blue_score = 0;
  empty_count = 4;
  sequence = 0;
}

new_pixel_board-blank : new_pixel_board true true 2 2 ≡ some blank
unfolding new_pixel_board
new_pixel_board-blank = refl

blank-IsValid : IsValid blank
unfolding tally
blank-IsValid = omega arith

-- A pixel that changes hands moves a point from one team to the other.
paint_takes_over :
    (paint (paint blank 1 0 team_red).1 1 0 team_blue).1
    ≡ record blank { pixels = 0 ∷ 2 ∷ 0 ∷ 0 ∷ []; blue_score = 1; empty_count = 3; sequence = 2 }
unfolding paint
paint_takes_over = refl

paint-IsValid_example : IsValid (paint blank 1 1 team_red).1
paint-IsValid_example = paint-IsValid 1 1 team_red blank-IsValid
