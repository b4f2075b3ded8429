-- ===== src/RingBuffer/Window.antt =====
-- The items of a ring, oldest first: the slots from the tail on, round the end of the array.
use libcore.Base.{
  ℕ, zero, suc, ◌+◌, ◌-◌, ◌%◌, ◌<◌, ◌≤◌, ◌≡◌, ◌≢◌, refl, sym, arith, ap, ap₂, ◌∙◌, none,
}
use libcore.Base.{List, [], ◌∷◌, ◌++◌, length, get_or, set, ltb, if◌then◌else◌}
use libcore.Base.{get_or-set_self, get_or-set_ne}
use native.Mathlib.Nat.{mod-add-mod, mod-eq_of_lt, mod-eq-sub-mod}
use libcore.Object.{Ptr}

-- `f 0`, `f 1`, … `f (n - 1)`.
abbrev pub tabulate : (ℕ → Ptr) → ℕ → List Ptr
tabulate f zero = []
tabulate f (suc n) = f 0 ∷ tabulate (λ k. f (suc k)) n

tabulate-congr :
    (f g : ℕ → Ptr) (n : ℕ) → ((k : ℕ) → k < n → f k ≡ g k) → tabulate f n ≡ tabulate g n
tabulate-congr f g zero same = refl
tabulate-congr f g (suc n) same =
    ap₂ ◌∷◌ (same 0 (omega arith))
      (tabulate-congr (λ k. f (suc k)) (λ k. g (suc k)) n (λ k h. same (suc k) (omega arith)))

tabulate-suc : (f : ℕ → Ptr) (n : ℕ) → tabulate f (suc n) ≡ tabulate f n ++ (f n ∷ [])
tabulate-suc f zero = refl
tabulate-suc f (suc n) = ap (λ xs. f 0 ∷ xs) (tabulate-suc (λ k. f (suc k)) n)

length-tabulate : (f : ℕ → Ptr) (n : ℕ) → length (tabulate f n) ≡ n
length-tabulate f zero = refl
length-tabulate f (suc n) = ap suc (length-tabulate (λ k. f (suc k)) n)

-- The item `k` places behind the tail.
abbrev pub slot : List Ptr → ℕ → ℕ → ℕ → Ptr
slot items cap t k = get_or items ((t + k) % cap) none

pub window : List Ptr → ℕ → ℕ → ℕ → List Ptr
window items cap t n = tabulate (slot items cap t) n

-- Where the index `t + k` lands, for a start inside the ring and less than one round.
round_lem :
    (cap t k : ℕ)
    → t < cap
    → k ≤ cap
    → (t + k) % cap ≡ (if ltb (t + k) cap then t + k else t + k - cap)
round_lem cap t k ht hk = ground (
  arith,
  λ (h : t + k < cap). mod-eq_of_lt h,
  λ (h : cap ≤ t + k). mod-eq-sub-mod {n = t + k} {m = cap} h,
  λ (h : t + k - cap < cap). mod-eq_of_lt h,
)

start : (cap t : ℕ) → t < cap → (t + 0) % cap ≡ t
start cap t ht = ground (arith, round_lem cap t 0)

-- Fewer than `cap` places apart, two slots are two slots.
round_apart : (cap t j k : ℕ) → t < cap → j < k → k < cap → (t + k) % cap ≢ (t + j) % cap
round_apart cap t j k ht hj hk = ground (arith, round_lem cap t j, round_lem cap t k)

-- Writing the slot behind the last item adds that item.
pub window-push :
    (items : List Ptr) (cap t n : ℕ) (x : Ptr)
    → length items ≡ cap
    → t < cap
    → n < cap
    → window (set items ((t + n) % cap) x) cap t (suc n) ≡ window items cap t n ++ (x ∷ [])
unfolding window
window-push items cap t n x size ht hn =
    tabulate-suc (slot (set items ((t + n) % cap) x) cap t) n
    ∙ ap₂ (λ (xs : List Ptr) (y : Ptr). xs ++ (y ∷ []))
        (tabulate-congr _ _ n
          (λ k hk. get_or-set_ne items _ _ x none (round_apart cap t k n ht hk hn)))
        (get_or-set_self items ((t + n) % cap) x none (omega arith))

-- Setting the first slot to NULL and moving on by one leaves the later items.
pub window-pop :
    (items : List Ptr) (cap t n : ℕ)
    → t < cap
    → n < cap
    → window items cap t (suc n)
      ≡ get_or items t none ∷ window (set items t none) cap ((t + 1) % cap) n
unfolding window
window-pop items cap t n ht hn = ap₂ ◌∷◌ (ap (λ i. get_or items i none) (start cap t ht)) (
    tabulate-congr _ _ n (λ k hk.
      let moved : ((t + 1) % cap + k) % cap ≡ (t + suc k) % cap =
        rw mod-add-mod (ap (λ i. i % cap) (omega arith)) in
      let apart = round_apart cap t 0 (suc k) ht (omega arith) (omega arith) in
      rw moved (
        sym (
          get_or-set_ne items t ((t + suc k) % cap) none none
            (λ e. apart (sym e ∙ sym (start cap t ht)))))))

pub window-zero : (items : List Ptr) (cap t : ℕ) → window items cap t 0 ≡ []
unfolding window
window-zero items cap t = refl

pub length-window : (items : List Ptr) (cap t n : ℕ) → length (window items cap t n) ≡ n
unfolding window
length-window items cap t n = length-tabulate (slot items cap t) n
