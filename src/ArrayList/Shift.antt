-- ===== src/ArrayList/Shift.antt =====
-- Closing the gap of a removed item is removal from the list of items.
use libcore.Base.{ℕ, zero, suc, ◌+◌, ◌<◌, ◌≤◌, ◌≡◌, refl, arith, ap, ◌∙◌, none, List, [], ◌∷◌}
use libcore.Base.{length, get_or, set, take, length-set}
use libcore.Object.{Ptr}
use libcore.ArrayList.{shift_down}

abbrev pub remove_at {ℓ} : {A : Type ℓ} → ℕ → List A → List A
remove_at i [] = []
remove_at zero (x ∷ xs) = xs
remove_at (suc i) (x ∷ xs) = x ∷ remove_at i xs

shift_down-cons :
    (n i : ℕ) (x : Ptr) (xs : List Ptr) → shift_down n (suc i) (x ∷ xs) ≡ x ∷ shift_down n i xs
unfolding shift_down
shift_down-cons zero i x xs = refl
shift_down-cons (suc n) i x xs = shift_down-cons n (suc i) x (set xs i (get_or xs (suc i) none))

pub length-shift_down : (n i : ℕ) (xs : List Ptr) → length (shift_down n i xs) ≡ length xs
unfolding shift_down
length-shift_down zero i xs = refl
length-shift_down (suc n) i xs =
    length-shift_down n (suc i) (set xs i (get_or xs (suc i) none)) ∙ length-set xs i _

take-shift_down_start :
    (n : ℕ) (x : Ptr) (xs : List Ptr) → n ≤ length xs → take n (shift_down n 0 (x ∷ xs)) ≡ take n xs
unfolding shift_down
take-shift_down_start zero x xs h = refl
take-shift_down_start (suc n) x [] h = absurd (omega arith)
take-shift_down_start (suc n) x (y ∷ ys) h =
    rw (shift_down-cons n 0 y (y ∷ ys))
      (ap (λ zs. y ∷ zs) (take-shift_down_start n y ys (omega arith)))

-- The loop moves every item behind the gap down by one.
pub take-shift_down :
    (n i m : ℕ) (xs : List Ptr)
    → m ≡ n + i
    → m < length xs
    → take m (shift_down n i xs) ≡ remove_at i (take (suc m) xs)
take-shift_down n i m [] e h = absurd (omega arith)
take-shift_down n zero m (x ∷ xs) e h =
    let e' : m ≡ n = omega arith in rw e' (take-shift_down_start n x xs (omega arith))
take-shift_down n (suc i) zero (x ∷ xs) e h = absurd (omega arith)
take-shift_down n (suc i) (suc m) (x ∷ xs) e h =
    rw (shift_down-cons n i x xs)
      (ap (λ zs. x ∷ zs) (take-shift_down n i m xs (omega arith) (omega arith)))
