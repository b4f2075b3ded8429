-- ===== src/CronScheduler/BitSet.antt =====
-- Sets of small numbers as the bits of a word: `bitmap | (1ULL << i)` and `bitmap & (1ULL << i)`.
use libcore.Base.{
  ℕ, zero, suc, ◌+◌, ◌*◌, ◌/◌, ◌%◌, ◌^◌, ◌<◌, Bool, false, ◌||◌, ◌≡◌, refl, ◌==◌, arith,
}
use native.Mathlib.Nat.{pow-suc}

-- The bit `i` set, by the digits of the word.
unfoldable pub set_bit : ℕ → ℕ → ℕ
set_bit bitmap zero = bitmap / 2 * 2 + 1
set_bit bitmap (suc i) = set_bit (bitmap / 2) i * 2 + bitmap % 2

pub test_bit : ℕ → ℕ → Bool
test_bit bitmap zero = bitmap % 2 == 1
test_bit bitmap (suc i) = test_bit (bitmap / 2) i

-- A set has what it had and what was put in.
pub test_bit-set_bit : (b i j : ℕ) → test_bit (set_bit b i) j ≡ (i == j || test_bit b j)
unfolding set_bit test_bit
test_bit-set_bit b zero zero = ground arith
test_bit-set_bit b zero (suc j) = let e : (b / 2 * 2 + 1) / 2 ≡ b / 2 = omega arith in ground arith
test_bit-set_bit b (suc i) zero = ground arith
test_bit-set_bit b (suc i) (suc j) =
    let ih = test_bit-set_bit (b / 2) i j in
    let e : (set_bit (b / 2) i * 2 + b % 2) / 2 ≡ set_bit (b / 2) i = omega arith in ground arith

pub test_bit-zero : (j : ℕ) → test_bit 0 j ≡ false
unfolding test_bit
test_bit-zero zero = refl
test_bit-zero (suc j) = test_bit-zero j

-- A set of numbers below the width of a word fits the word.
pub set_bit-lt : (w b i : ℕ) → i < w → b < 2 ^ w → set_bit b i < 2 ^ w
unfolding set_bit
set_bit-lt zero b i h k = absurd (omega arith)
set_bit-lt (suc w) b zero h k = let double = pow-suc 2 w in omega arith
set_bit-lt (suc w) b (suc i) h k =
    let double = pow-suc 2 w in
    let half = set_bit-lt w (b / 2) i (omega arith) (omega arith) in omega arith
