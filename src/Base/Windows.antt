-- ===== src/Base/Windows.antt =====
-- The elements of a list between two positions.
use Prim.Native.Nat.{ℕ, zero, suc, ◌+◌, ◌-◌, ◌≤◌}
use mathlib.Core.Path.{◌≡◌, refl, sym, ap, ◌∙◌}
use mathlib.Core.List.{List, [], ◌∷◌, ◌++◌}
use native.Mathlib.Omega.{arith}
use libcore.Base.Lists.{length, take, drop}

module _ {ℓ} {A : Type ℓ} where
  take_of_nil : (n : ℕ) → take {A = A} n [] ≡ []
  take_of_nil zero = refl
  take_of_nil (suc n) = refl

  drop_of_nil : (n : ℕ) → drop {A = A} n [] ≡ []
  drop_of_nil zero = refl
  drop_of_nil (suc n) = refl

  pub drop-take : (r w : ℕ) (xs : List A) → drop r (take w xs) ≡ take (w - r) (drop r xs)
  drop-take zero w xs = ap (λ n. take n xs) (omega arith)
  drop-take (suc r) zero xs =
      ap (λ n. take n (drop (suc r) xs)) {x = 0} {y = 0 - suc r} (omega arith)
  drop-take (suc r) (suc w) [] = sym (take_of_nil (suc w - suc r))
  drop-take (suc r) (suc w) (x ∷ xs) =
      drop-take r w xs ∙ ap (λ n. take n (drop r xs)) {x = w - r} {y = suc w - suc r} (omega arith)

  pub drop-drop : (m n : ℕ) (xs : List A) → drop m (drop n xs) ≡ drop (n + m) xs
  drop-drop m zero xs = ap (λ k. drop k xs) (omega arith)
  drop-drop m (suc n) [] = drop_of_nil m ∙ sym (drop_of_nil (suc n + m))
  drop-drop m (suc n) (x ∷ xs) =
      drop-drop m n xs ∙ ap (λ k. drop k (x ∷ xs)) {x = suc (n + m)} {y = suc n + m} (omega arith)

  pub take-take : (m n : ℕ) (xs : List A) → m ≤ n → take m (take n xs) ≡ take m xs
  take-take zero n xs h = refl
  take-take (suc m) zero xs h = absurd (omega arith)
  take-take (suc m) (suc n) [] h = refl
  take-take (suc m) (suc n) (x ∷ xs) h = ap (λ ys. x ∷ ys) (take-take m n xs (omega arith))

  pub take-append_add : (n : ℕ) (xs ys : List A) → take (length xs + n) (xs ++ ys) ≡ xs ++ take n ys
  take-append_add n [] ys = ap (λ k. take k ys) (omega arith)
  take-append_add n (x ∷ xs) ys =
      ap (λ k. take k ((x ∷ xs) ++ ys)) {x = suc (length xs) + n} {y = suc (length xs + n)}
        (omega arith)
      ∙ ap (λ zs. x ∷ zs) (take-append_add n xs ys)
