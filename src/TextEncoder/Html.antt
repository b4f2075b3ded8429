-- ===== src/TextEncoder/Html.antt =====
-- src/text_encoder.c: what escaped HTML cannot contain.
use libcore.Base.{
  ℕ, Bool, true, false, ◌||◌, ◌≡◌, refl, List, [], ◌∷◌, ◌++◌, ◌==◌, if◌then◌else◌, arith,
}
use libcore.TextEncoder.{escape_char, escape_html}

pub is_markup : ℕ → Bool
is_markup c = c == b'<' || (c == b'>' || (c == 34 || c == 39))

pub has_no_markup : List ℕ → Bool
has_no_markup [] = true
has_no_markup (c ∷ cs) = let rest = has_no_markup cs in if is_markup c then false else rest

no_markup-append :
    (xs ys : List ℕ)
    → has_no_markup xs ≡ true
    → has_no_markup ys ≡ true
    → has_no_markup (xs ++ ys) ≡ true
unfolding has_no_markup
no_markup-append [] ys h k = k
no_markup-append (x ∷ xs) ys h k = let ih = no_markup-append xs ys (ground arith) k in ground arith

no_markup-escape_char : (c : ℕ) → has_no_markup (escape_char c) ≡ true
unfolding has_no_markup escape_char is_markup
no_markup-escape_char c = ground arith

-- Escaped text has no angle bracket and no quote, whatever the input is.
pub no_markup-escape_html : (input : List ℕ) → has_no_markup (escape_html input) ≡ true
unfolding escape_html has_no_markup
no_markup-escape_html [] = refl
no_markup-escape_html (c ∷ cs) =
    no_markup-append (escape_char c) (escape_html cs) (no_markup-escape_char c)
      (no_markup-escape_html cs)
