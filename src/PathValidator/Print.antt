-- ===== src/PathValidator/Print.antt =====
-- src/path_validator.c: the text of segments, and that of the bytes written so far.
use libcore.Base.{ℕ, ◌+◌, ◌≤◌, true, ◌&&◌}
use libcore.Base.{List, [], ◌∷◌, ◌++◌, ◌≡◌, refl, ap, ◌∙◌, arith}
use libcore.Base.{length}
use libcore.PathValidator.{slash, max_segments}
use libcore.PathValidator.{reverse_onto, text_of}
use libcore.PathValidator.Shape.{all_plain, all_dots, is_segment, all_segments, shape}

-- The text of a list of segments, the root for none.
unfoldable pub joined : List (List ℕ) → List ℕ
joined [] = []
joined (s ∷ ss) = slash ∷ s ++ joined ss

unfoldable pub print_path : List (List ℕ) → List ℕ
unfolding joined
print_path [] = slash ∷ []
print_path (s ∷ ss) = joined (s ∷ ss)

-- At most 100 segments, joined.
unfoldable pub IsCanonical : List ℕ → Type 0
IsCanonical p =
    (segs : List (List ℕ)) × (p ≡ print_path segs)
    × (all_segments segs ≡ true)
    × (length segs ≤ max_segments)

pub reverse_onto_append :
    (xs ys zs : List ℕ) → reverse_onto (xs ++ ys) zs ≡ reverse_onto ys (reverse_onto xs zs)
reverse_onto_append [] ys zs = refl
reverse_onto_append (x ∷ xs) ys zs = reverse_onto_append xs ys (x ∷ zs)

pub reverse_onto_text : (xs ys zs : List ℕ) → reverse_onto xs (ys ++ zs) ≡ reverse_onto xs ys ++ zs
reverse_onto_text [] ys zs = refl
reverse_onto_text (x ∷ xs) ys zs = reverse_onto_text xs (x ∷ ys) zs

-- The segments from the first on.
pub turn : List (List ℕ) → List (List ℕ) → List (List ℕ)
turn [] acc = acc
turn (s ∷ ss) acc = turn ss (text_of s ∷ acc)

pub reverse_onto-shape :
    (ss : List (List ℕ)) (s : List ℕ) (acc : List (List ℕ))
    → reverse_onto (shape ss s) (joined acc) ≡ joined (turn (s ∷ ss) acc)
unfolding shape joined turn
reverse_onto-shape [] s acc =
    reverse_onto_append s (slash ∷ []) (joined acc)
    ∙ ap (λ x. slash ∷ x) (reverse_onto_text s [] (joined acc))
reverse_onto-shape (r ∷ ss) s acc =
    reverse_onto_append s (slash ∷ shape ss r) (joined acc)
    ∙ ap (λ x. reverse_onto (shape ss r) (slash ∷ x)) (reverse_onto_text s [] (joined acc))
    ∙ reverse_onto-shape ss r (text_of s ∷ acc)

pub length-reverse_onto : (xs ys : List ℕ) → length (reverse_onto xs ys) ≡ length xs + length ys
length-reverse_onto [] ys = omega arith
length-reverse_onto (x ∷ xs) ys = omega (arith, length-reverse_onto xs (x ∷ ys))

pub all_plain-reverse_onto :
    (xs ys : List ℕ)
    → all_plain xs ≡ true
    → all_plain ys ≡ true
    → all_plain (reverse_onto xs ys) ≡ true
unfolding all_plain
all_plain-reverse_onto [] ys h k = k
all_plain-reverse_onto (x ∷ xs) ys h k =
    all_plain-reverse_onto xs (x ∷ ys) (ground arith) (ground arith)

all_dots-reverse_onto :
    (xs ys : List ℕ) → all_dots (reverse_onto xs ys) ≡ (all_dots xs && all_dots ys)
unfolding all_dots
all_dots-reverse_onto [] ys = refl
all_dots-reverse_onto (x ∷ xs) ys = all_dots-reverse_onto xs (x ∷ ys) ∙ ground arith

pub is_segment-text_of : (s : List ℕ) → is_segment s ≡ true → is_segment (text_of s) ≡ true
unfolding is_segment
is_segment-text_of s h =
    let l = length-reverse_onto s [] in
    let p = all_plain-reverse_onto s [] (ground arith) refl in
    let d : all_dots (text_of s) ≡ (all_dots s && true) = all_dots-reverse_onto s [] in ground arith

pub all_segments-turn :
    (ss acc : List (List ℕ))
    → all_segments ss ≡ true
    → all_segments acc ≡ true
    → all_segments (turn ss acc) ≡ true
unfolding all_segments turn
all_segments-turn [] acc h k = k
all_segments-turn (s ∷ ss) acc h k =
    let ok = is_segment-text_of s (ground arith) in
    all_segments-turn ss (text_of s ∷ acc) (ground arith) (simp (ok, k) refl)

pub length-turn : (ss acc : List (List ℕ)) → length (turn ss acc) ≡ length ss + length acc
unfolding turn
length-turn [] acc = omega arith
length-turn (s ∷ ss) acc = omega (arith, length-turn ss (text_of s ∷ acc))
