-- ===== src/Base/Bits.antt =====
-- `^` on machine words: its law for the lowest binary digit, and that a second `^` undoes a first.
use Prim.Native.Nat.{ℕ, zero, suc, ◌+◌, ◌*◌, ◌/◌, ◌%◌, ◌≤◌, ◌<◌, ◌^◌, bit_xor, digits, differ}
use Prim.Native.Nat.{bit_xor-bitwise}
use mathlib.Core.Path.{◌≡◌, refl}
use native.Mathlib.Nat.{pow-suc}
use native.Mathlib.Omega.{arith}

-- `^` by its digits, `steps` of them.
abbrev xor_run : ℕ → ℕ → ℕ → ℕ
xor_run steps x y = digits (λ rest. rest) differ steps x y

-- Steps past the first number's digits change nothing.
xor_run_spare : (s t x y : ℕ) → x ≤ s → x ≤ t → xor_run s x y ≡ xor_run t x y
xor_run_spare zero t (suc x) y hs ht = absurd (omega arith)
xor_run_spare zero zero zero y hs ht = refl
xor_run_spare zero (suc t) zero y hs ht = refl
xor_run_spare (suc s) zero (suc x) y hs ht = absurd (omega arith)
xor_run_spare (suc s) zero zero y hs ht = refl
xor_run_spare (suc s) (suc t) zero y hs ht = refl
xor_run_spare (suc s) (suc t) (suc x) y hs ht =
    let half = xor_run_spare s t (suc x / 2) (y / 2) (omega arith) (omega arith) in omega arith

pub bit_xor_step : (x y : ℕ) → bit_xor x y ≡ bit_xor (x / 2) (y / 2) * 2 + differ (x % 2) (y % 2)
bit_xor_step zero y = simp bit_xor-bitwise (ground arith)
bit_xor_step (suc x) y =
    simp bit_xor-bitwise
      (omega (arith, xor_run_spare x (suc x / 2) (suc x / 2) (y / 2) (omega arith) (omega arith)))

differ-lt : (d e : ℕ) → d < 2 → e < 2 → differ d e < 2
differ-lt zero e hd he = he
differ-lt (suc zero) zero hd he = omega arith
differ-lt (suc zero) (suc zero) hd he = omega arith
differ-lt (suc zero) (suc (suc e)) hd he = absurd (omega arith)
differ-lt (suc (suc d)) e hd he = absurd (omega arith)

differ_twice : (d e : ℕ) → d < 2 → e < 2 → differ (differ d e) e ≡ d
differ_twice zero zero hd he = refl
differ_twice zero (suc zero) hd he = refl
differ_twice zero (suc (suc e)) hd he = absurd (omega arith)
differ_twice (suc zero) zero hd he = refl
differ_twice (suc zero) (suc zero) hd he = refl
differ_twice (suc zero) (suc (suc e)) hd he = absurd (omega arith)
differ_twice (suc (suc d)) e hd he = absurd (omega arith)

-- The two parts of `x ^ y`: its upper digits, and its lowest.
bit_xor_parts :
    (x y : ℕ)
    → (bit_xor x y / 2 ≡ bit_xor (x / 2) (y / 2)) × (bit_xor x y % 2 ≡ differ (x % 2) (y % 2))
bit_xor_parts x y =
    let low = differ-lt (x % 2) (y % 2) (omega arith) (omega arith) in
    let whole = bit_xor_step x y in (omega arith, omega arith)

bit_xor_twice_within : (n x y : ℕ) → x ≤ n → y ≤ n → bit_xor (bit_xor x y) y ≡ x
bit_xor_twice_within zero zero zero hx hy = refl
bit_xor_twice_within zero (suc x) y hx hy = absurd (omega arith)
bit_xor_twice_within zero zero (suc y) hx hy = absurd (omega arith)
bit_xor_twice_within (suc n) x y hx hy =
    let (upper, low) = bit_xor_parts x y in
    let rest = bit_xor_twice_within n (x / 2) (y / 2) (omega arith) (omega arith) in
    rw (bit_xor_step (bit_xor x y) y, upper, low, rest)
      (omega (arith, differ_twice (x % 2) (y % 2) (omega arith) (omega arith)))

-- Masking twice with the same byte gives the byte back.
pub bit_xor_twice : (x y : ℕ) → bit_xor (bit_xor x y) y ≡ x
bit_xor_twice x y = bit_xor_twice_within (x + y) x y (omega arith) (omega arith)

-- `^` of two numbers of `k` binary digits has no more than `k`.
pub bit_xor-lt : (k x y : ℕ) → x < 2 ^ k → y < 2 ^ k → bit_xor x y < 2 ^ k
bit_xor-lt zero zero zero hx hy = omega arith
bit_xor-lt zero (suc x) y hx hy = absurd (omega arith)
bit_xor-lt zero zero (suc y) hx hy = absurd (omega arith)
bit_xor-lt (suc k) x y hx hy =
    let low = differ-lt (x % 2) (y % 2) (omega arith) (omega arith) in
    let double = pow-suc 2 k in
    let rest = bit_xor-lt k (x / 2) (y / 2) (omega arith) (omega arith) in
    omega (arith, bit_xor_step x y)
