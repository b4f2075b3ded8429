-- ===== src/ToosType/Context/Ranking/Order.antt =====
-- src/toos_type_game_context.c: the comparison of two entries is an order on their grades.
use libcore.Base.{
  ℕ, ◌≡◌, refl, ap₂, arith, Bool, true, false, not, List, [], ◌∷◌, ltb, ◌==◌, if◌then◌else◌, length,
}
use libcore.ToosType.Context.{RankingEntry, unfinished, finished}
use libcore.ToosType.Context.Ranking.{should_swap, swap_dnf, swap_finished, swap_accuracy}

-- Who finished comes before who left; then the scores, from the first to the last that counts.
unfoldable pub grade : RankingEntry → List ℕ
grade e = elim e.status [
  | finished ↦ 1 ∷ e.total_score ∷ 0 ∷ e.accuracy_x100 ∷ e.phase_score ∷ e.wpm ∷ []
  | _ ↦ 0 ∷ e.total_score ∷ e.played_ms ∷ e.accuracy_x100 ∷ e.phase_score ∷ e.wpm ∷ []
]

-- The grades `xs` of player `m` are worse than `ys` of player `n`: lexicographically less, or the same
-- with a larger number of the player.
unfoldable pub worse : List ℕ → ℕ → List ℕ → ℕ → Bool
worse [] m [] n = ltb n m
worse [] m (y ∷ ys) n = false
worse (x ∷ xs) m [] n = false
worse (x ∷ xs) m (y ∷ ys) n =
    let rest = worse xs m ys n in if ltb x y then true else if not (y == x) then false else rest

pub length-grade : (e : RankingEntry) → length (grade e) ≡ 6
unfolding grade
length-grade e = ground arith

pub worse_flip :
    (xs : List ℕ) (m : ℕ) (ys : List ℕ) (n : ℕ) → worse xs m ys n ≡ true → worse ys n xs m ≡ false
unfolding worse
worse_flip [] m [] n h = ground arith
worse_flip [] m (y ∷ ys) n h = refl
worse_flip (x ∷ xs) m [] n h = refl
worse_flip (x ∷ xs) m (y ∷ ys) n h = let ih = worse_flip xs m ys n in grind (arith, ih)

pub worse_trans :
    (xs : List ℕ) (m : ℕ) (ys : List ℕ) (n : ℕ) (zs : List ℕ) (k : ℕ)
    → length xs ≡ length ys
    → length ys ≡ length zs
    → worse xs m ys n ≡ false
    → worse ys n zs k ≡ false
    → worse xs m zs k ≡ false
unfolding worse
worse_trans [] m [] n [] k l l' h h' = ground arith
worse_trans (x ∷ xs) m (y ∷ ys) n (z ∷ zs) k l l' h h' =
    let ih = worse_trans xs m ys n zs k (omega (arith, l)) (omega (arith, l')) in grind (arith, ih)
worse_trans [] m (y ∷ ys) n zs k l l' h h' = absurd (omega (arith, l))
worse_trans (x ∷ xs) m [] n zs k l l' h h' = absurd (omega (arith, l))
worse_trans [] m [] n (z ∷ zs) k l l' h h' = absurd (omega (arith, l'))
worse_trans (x ∷ xs) m (y ∷ ys) n [] k l l' h h' = absurd (omega (arith, l'))

pub worse_refl : (xs : List ℕ) (m : ℕ) → worse xs m xs m ≡ false
unfolding worse
worse_refl [] m = ground arith
worse_refl (x ∷ xs) m = let ih = worse_refl xs m in ground arith

-- Grades of which neither is worse are the same.
pub worse_total :
    (xs ys : List ℕ)
    → length xs ≡ length ys
    → worse xs 0 ys 0 ≡ false
    → worse ys 0 xs 0 ≡ false
    → xs ≡ ys
unfolding worse
worse_total [] [] l h h' = refl
worse_total [] (y ∷ ys) l h h' = absurd (omega (arith, l))
worse_total (x ∷ xs) [] l h h' = absurd (omega (arith, l))
worse_total (x ∷ xs) (y ∷ ys) l h h' =
    let ih = worse_total xs ys (omega (arith, l)) in
    let first : x ≡ y = ground arith in
    ap₂ (λ a as'. a ∷ as') first (ih (ground arith) (ground arith))

-- Without the numbers of the players, worse is still worse or the same.
pub worse_grade :
    (xs : List ℕ) (m : ℕ) (ys : List ℕ) (n : ℕ) → worse xs m ys n ≡ false → worse xs 0 ys 0 ≡ false
unfolding worse
worse_grade [] m [] n h = ground arith
worse_grade [] m (y ∷ ys) n h = refl
worse_grade (x ∷ xs) m [] n h = refl
worse_grade (x ∷ xs) m (y ∷ ys) n h = let ih = worse_grade xs m ys n in grind (arith, ih)

unfoldable pub is_ended : RankingEntry → Bool
is_ended e = elim e.status [ unfinished ↦ false | _ ↦ true ]

-- The comparison of the code is the order on the grades, for players whose game has ended.
pub should_swap-worse :
    (e1 e2 : RankingEntry)
    → is_ended e1 ≡ true
    → is_ended e2 ≡ true
    → should_swap e1 e2 ≡ worse (grade e1) e1.player_no (grade e2) e2.player_no
unfolding should_swap swap_dnf swap_finished swap_accuracy worse grade is_ended
should_swap-worse e1 e2 h1 h2 = ground arith
