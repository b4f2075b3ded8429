-- ===== src/PixelBoard.antt =====
-- src/pixel_board.c and include/pixel_board.h: a board of pixels that two teams paint, with the
-- scores kept beside the pixels. A team is its byte. `self` is never NULL here.
pub mod Tally
pub mod Invariant
pub mod Paint
mod Tests
use libcore.Base.{ℕ, ◌+◌, ◌-◌, ◌*◌, ◌%◌, ◌^◌, Bool, List, Option, none, some, ◌&&◌, ◌||◌, not}
use libcore.Base.{leb, ◌==◌, if◌then◌else◌, get_or, set, replicate}

abbrev pub team_empty : ℕ
team_empty = 0

abbrev pub team_red : ℕ
team_red = 1

abbrev pub team_blue : ℕ
team_blue = 2

pub data PixelPaintResult : Type 0 where
  error unchanged changed : PixelPaintResult

pub record PixelBoard : Type 0 where
  pub width : ℕ
  pub height : ℕ
  pub pixels : List ℕ
  pub red_score : ℕ
  pub blue_score : ℕ
  pub empty_count : ℕ
  pub sequence : ℕ

-- `++` and `--` of a `uint32_t`, `++` of a `uint64_t`.
inc32 : ℕ → ℕ
inc32 n = (n + 1) % 2 ^ 32

dec32 : ℕ → ℕ
dec32 n = (n + 2 ^ 32 - 1) % 2 ^ 32

inc64 : ℕ → ℕ
inc64 n = (n + 1) % 2 ^ 64

-- The flags say whether the two allocations succeed.
pub new_pixel_board : Bool → Bool → ℕ → ℕ → Option PixelBoard
new_pixel_board self_ok pixels_ok width height =
    if width == 0 || height == 0
    then none
    else if not self_ok
    then none
    else let empty_count = width * height % 2 ^ 32 in
      if not pixels_ok
      then none
      else some (record {
        width = width;
        height = height;
        pixels = replicate empty_count team_empty;
        red_score = 0;
        blue_score = 0;
        empty_count = empty_count;
        sequence = 0;
      })

-- `memset` over `width * height` bytes: the whole canvas.
pub clear : PixelBoard → PixelBoard
unfolding inc64
clear b =
    let total_pixels = b.width * b.height in
    record b {
      pixels = replicate total_pixels team_empty;
      red_score = 0;
      blue_score = 0;
      empty_count = total_pixels % 2 ^ 32;
      sequence = inc64 b.sequence;
    }

abbrev pub index : PixelBoard → ℕ → ℕ → ℕ
index b x y = y * b.width + x

-- The scores when a pixel that was `prev` becomes `team`.
pub rescore : PixelBoard → ℕ → ℕ → PixelBoard
unfolding inc32 dec32
rescore b prev team =
    if prev == team_empty
    then (if team == team_red
        then record b { empty_count = dec32 b.empty_count; red_score = inc32 b.red_score }
        else record b { empty_count = dec32 b.empty_count; blue_score = inc32 b.blue_score })
    else if prev == team_red
    then record b { red_score = dec32 b.red_score; blue_score = inc32 b.blue_score }
    else if prev == team_blue
    then record b { blue_score = dec32 b.blue_score; red_score = inc32 b.red_score }
    else b

pub paint : PixelBoard → ℕ → ℕ → ℕ → PixelPaintResult × PixelBoard
unfolding rescore inc64
paint b x y team =
    if leb b.width x || leb b.height y
    then (error, b)
    else if not (team == team_red) && not (team == team_blue)
    then (error, b)
    else let prev = get_or b.pixels (index b x y) team_empty in
      if prev == team
      then (unchanged, b)
      else let scored = rescore b prev team in
        (
          changed,
          record scored { pixels = set b.pixels (index b x y) team; sequence = inc64 b.sequence },
        )

pub get : PixelBoard → ℕ → ℕ → ℕ
get b x y =
    if leb b.width x || leb b.height y then team_empty else get_or b.pixels (index b x y) team_empty

-- The version, and a copy of the canvas.
pub snapshot : PixelBoard → ℕ × List ℕ
snapshot b = (b.sequence, b.pixels)
