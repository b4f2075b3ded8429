-- ===== src/ArrayList/Traverse.antt =====
-- The operations that walk over an ArrayList: `clear`, the finalizer, `find` and `forEach`.
use libcore.Base.{ℕ, zero, suc, ◌≤◌, ◌≡◌, refl, arith, ◌∙◌, Bool}
use libcore.Base.{none, List, [], ◌∷◌, if◌then◌else◌}
use libcore.Base.{length, take, set, get_or, length-take}
use libcore.Object.{Ptr, Heap, release}
use libcore.ArrayList.{
  ArrayList, Allocator, clear_from, clear, find_from, find, act_from, for_each, array_list_finalize,
}
use libcore.ArrayList.Invariant.{IsValid}
use libcore.ArrayList.Refine.{contents}

module _ (finalize : ℕ → Heap → Heap) where
  -- The releases of a sequence, first item first.
  pub release_all : List Ptr → Heap → Heap
  release_all [] h = h
  release_all (x ∷ xs) h = release_all xs (release finalize x h)

  clear_from-cons :
      (n i : ℕ) (x : Ptr) (xs : List Ptr) (h : Heap)
      → (clear_from finalize n (suc i) (x ∷ xs) h).1 ≡ (clear_from finalize n i xs h).1
  unfolding clear_from
  clear_from-cons zero i x xs h = refl
  clear_from-cons (suc n) i x xs h =
      clear_from-cons n (suc i) x (set xs i none) (release finalize (get_or xs i none) h)

  clear_from-release_all :
      (n : ℕ) (xs : List Ptr) (h : Heap)
      → n ≤ length xs
      → (clear_from finalize n 0 xs h).1 ≡ release_all (take n xs) h
  unfolding clear_from release_all
  clear_from-release_all zero xs h k = refl
  clear_from-release_all (suc n) [] h k = absurd (omega arith)
  clear_from-release_all (suc n) (x ∷ xs) h k =
      clear_from-cons n 0 none xs (release finalize x h)
      ∙ clear_from-release_all n xs (release finalize x h) (omega arith)

  -- `clear` leaves the empty sequence, and releases each item that was held once, in order; the
  -- list's own finalizer makes the same releases.
  pub clear_refines :
      {l : ArrayList} (h : Heap)
      → IsValid l
      → (contents (clear finalize l h).0 ≡ [])
        × ((clear finalize l h).1 ≡ release_all (contents l) h)
        × (array_list_finalize finalize l h ≡ release_all (contents l) h)
  unfolding clear array_list_finalize
  clear_refines {l} h v =
      let released = clear_from-release_all l.size l.items h (omega arith) in
      (refl, released, released)

-- The first item of a sequence that passes the test, and NULL if none does.
pub first_match : (Ptr → Bool) → List Ptr → Ptr
first_match same [] = none
first_match same (x ∷ xs) = if same x then x else first_match same xs

find_from-cons :
    (same : Ptr → Bool) (x : Ptr) (xs : List Ptr) (i n : ℕ)
    → find_from same (x ∷ xs) (suc i) n ≡ find_from same xs i n
unfolding find_from
find_from-cons same x xs i zero = refl
find_from-cons same x xs i (suc n) = rw (find_from-cons same x xs (suc i) n)

find_from-first_match :
    (same : Ptr → Bool) (xs : List Ptr) (n : ℕ)
    → n ≤ length xs
    → find_from same xs 0 n ≡ first_match same (take n xs)
unfolding find_from first_match
find_from-first_match same xs zero k = refl
find_from-first_match same [] (suc n) k = absurd (omega arith)
find_from-first_match same (x ∷ xs) (suc n) k =
    rw (find_from-cons same x xs 0 n, find_from-first_match same xs n (omega arith))

-- `find` gives the first item of the sequence that the comparison calls equal, and NULL if none is.
pub find_refines :
    (same : Ptr → Bool) {l : ArrayList} → IsValid l → find same l ≡ first_match same (contents l)
unfolding find
find_refines same {l} v = find_from-first_match same l.items l.size (omega arith)

-- `action` on each item of a sequence, first item first.
pub act_all : (Ptr → Heap → Heap) → List Ptr → Heap → Heap
act_all action [] h = h
act_all action (x ∷ xs) h = act_all action xs (action x h)

act_from-cons :
    (action : Ptr → Heap → Heap) (x : Ptr) (xs : List Ptr) (i n : ℕ) (h : Heap)
    → act_from action (x ∷ xs) (suc i) n h ≡ act_from action xs i n h
unfolding act_from
act_from-cons action x xs i zero h = refl
act_from-cons action x xs i (suc n) h =
    act_from-cons action x xs (suc i) n (action (get_or xs i none) h)

act_from-act_all :
    (action : Ptr → Heap → Heap) (xs : List Ptr) (n : ℕ) (h : Heap)
    → n ≡ length xs
    → act_from action xs 0 n h ≡ act_all action xs h
unfolding act_from act_all
act_from-act_all action [] zero h k = refl
act_from-act_all action (x ∷ xs) zero h k = absurd (omega arith)
act_from-act_all action [] (suc n) h k = absurd (omega arith)
act_from-act_all action (x ∷ xs) (suc n) h k =
    act_from-cons action x xs 0 n (action x h)
    ∙ act_from-act_all action xs n (action x h) (omega arith)

act_from_none :
    (action : Ptr → Heap → Heap) (xs : List Ptr) (n : ℕ) (h : Heap)
    → n ≡ 0
    → act_from action xs 0 n h ≡ h
unfolding act_from
act_from_none action xs zero h e = refl
act_from_none action xs (suc n) h e = absurd (omega arith)

-- `forEach` runs the action on each item of the sequence, in order, where the copy that it makes is
-- granted, and on none where it is not.
pub for_each_refines :
    (a : Allocator) (action : Ptr → Heap → Heap) {l : ArrayList} (h : Heap)
    → IsValid l
    → for_each a action l h ≡ (if a.grants l.size then act_all action (contents l) h else h)
unfolding for_each
for_each_refines a action {l} h v = ground (
  arith,
  act_from-act_all action (contents l) l.size h,
  length-take l.size l.items,
  act_from_none action (contents l) l.size h,
)
