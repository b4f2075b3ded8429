-- ===== src/Base/Tally.antt =====
-- How often a number stands in a list, and how writes and swaps change that.
use Prim.Native.Nat.{ℕ, zero, suc, ◌+◌, ◌<◌, ◌≤◌}
use mathlib.Core.Path.{◌≡◌, refl, ◌∙◌}
use mathlib.Core.Logic.{◌≢◌}
use mathlib.Core.List.{List, [], ◌∷◌, ◌++◌}
use native.Mathlib.Omega.{arith}
use libcore.Base.Tests.{◌==◌, if◌then◌else◌}
use libcore.Base.Lists.{length, get_or, set, replicate, length-set, get_or-set}

abbrev pub one_if_same : ℕ → ℕ → ℕ
one_if_same p t = if p == t then 1 else 0

unfoldable pub tally : ℕ → List ℕ → ℕ
tally t [] = 0
tally t (p ∷ ps) = one_if_same p t + tally t ps

pub tally-set :
    (t : ℕ) (ps : List ℕ) (i v d : ℕ)
    → i < length ps
    → tally t (set ps i v) + one_if_same (get_or ps i d) t ≡ tally t ps + one_if_same v t
unfolding tally
tally-set t [] i v d h = absurd (omega arith)
tally-set t (p ∷ ps) zero v d h = omega arith
tally-set t (p ∷ ps) (suc i) v d h = omega (arith, tally-set t ps i v d (omega arith))

pub tally-replicate : (t p n : ℕ) → p ≢ t → tally t (replicate n p) ≡ 0
unfolding tally
tally-replicate t p zero h = refl
tally-replicate t p (suc n) h = ground (arith, tally-replicate t p n)

pub tally-replicate_self : (t n : ℕ) → tally t (replicate n t) ≡ n
unfolding tally
tally-replicate_self t zero = refl
tally-replicate_self t (suc n) = ground (arith, tally-replicate_self t n)

pub tally-append : (t : ℕ) (xs ys : List ℕ) → tally t (xs ++ ys) ≡ tally t xs + tally t ys
unfolding tally
tally-append t [] ys = omega arith
tally-append t (x ∷ xs) ys = omega (arith, tally-append t xs ys)

-- What stands in a list is counted at least once.
pub tally-get_or : (xs : List ℕ) (i d : ℕ) → i < length xs → 1 ≤ tally (get_or xs i d) xs
unfolding tally
tally-get_or [] i d h = absurd (omega arith)
tally-get_or (x ∷ xs) zero d h = ground arith
tally-get_or (x ∷ xs) (suc i) d h = omega (arith, tally-get_or xs i d (omega arith))

-- Two elements exchanged.
unfoldable pub swap : List ℕ → ℕ → ℕ → List ℕ
swap xs i j = set (set xs i (get_or xs j 0)) j (get_or xs i 0)

pub length-swap : (xs : List ℕ) (i j : ℕ) → length (swap xs i j) ≡ length xs
unfolding swap
length-swap xs i j =
    length-set (set xs i (get_or xs j 0)) j (get_or xs i 0) ∙ length-set xs i (get_or xs j 0)

pub tally-swap :
    (t : ℕ) (xs : List ℕ) (i j : ℕ)
    → i < length xs
    → j < length xs
    → tally t (swap xs i j) ≡ tally t xs
unfolding swap
tally-swap t xs i j h k =
    let one = tally-set t xs i (get_or xs j 0) 0 h in
    let size = length-set xs i (get_or xs j 0) in
    let two = tally-set t (set xs i (get_or xs j 0)) j (get_or xs i 0) 0 (omega arith) in
    let read = get_or-set xs i j (get_or xs j 0) 0 h in ground arith
