-- ===== src/PathValidator/Shape.antt =====
-- src/path_validator.c: what the bytes written so far are, as segments.
use libcore.Base.{ℕ, ◌<◌, ◌≤◌, Bool, true, false, not, ◌&&◌}
use libcore.Base.{List, [], ◌∷◌, ◌++◌, ◌≡◌, refl}
use libcore.Base.{ltb, leb, ◌==◌, if◌then◌else◌, length}
use libcore.PathValidator.{Scan, slash, dot, max_segments, max_segment_len, is_allowed}

-- A byte that a segment may have.
unfoldable pub is_plain : ℕ → Bool
is_plain c = is_allowed false c && not (c == slash)

unfoldable pub all_plain : List ℕ → Bool
all_plain [] = true
all_plain (c ∷ cs) = let rest = all_plain cs in if is_plain c then rest else false

unfoldable pub all_dots : List ℕ → Bool
all_dots [] = true
all_dots (c ∷ cs) = let rest = all_dots cs in if c == dot then rest else false

-- A segment of a canonical path: 1 to 255 bytes, and neither "." nor "..".
unfoldable pub is_segment : List ℕ → Bool
unfolding all_plain all_dots
is_segment s =
    if ltb 0 (length s) && leb (length s) max_segment_len && all_plain s
    then not (leb (length s) 2 && all_dots s)
    else false

unfoldable pub all_segments : List (List ℕ) → Bool
all_segments [] = true
all_segments (s ∷ ss) = let rest = all_segments ss in if is_segment s then rest else false

-- The bytes of the segments `done` and of the open segment `cur`, all of them with the last one first.
unfoldable pub shape : List (List ℕ) → List ℕ → List ℕ
shape [] cur = cur ++ slash ∷ []
shape (s ∷ ss) cur = cur ++ slash ∷ shape ss s

-- The state of the loop after the first slash, with room for `out_size` bytes.
unfoldable pub Represents : ℕ → Scan → List (List ℕ) → List ℕ → Type 0
Represents out_size s done cur =
    (s.out ≡ shape done cur)
    × (s.seg_count ≡ length done)
    × (s.seg_len ≡ length cur)
    × (all_segments done ≡ true)
    × (length done ≤ max_segments)
    × (all_plain cur ≡ true)
    × (length cur ≤ max_segment_len)
    × (length s.out < out_size)

pub shape_nil : (done : List (List ℕ)) → (rest : List ℕ) × (shape done [] ≡ slash ∷ rest)
unfolding shape
shape_nil [] = ([], refl)
shape_nil (s ∷ ss) = (shape ss s, refl)

pub shape_cons :
    (done : List (List ℕ)) (c : ℕ) (cs : List ℕ) → shape done (c ∷ cs) ≡ c ∷ shape done cs
unfolding shape
shape_cons [] c cs = refl
shape_cons (s ∷ ss) c cs = refl
