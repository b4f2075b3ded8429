-- ===== src/ArrayList/Refine.antt =====
-- An ArrayList behaves as the sequence of the items that it holds.
use libcore.Base.{ℕ, zero, suc, ◌+◌, ◌-◌, ◌^◌, ◌<◌, ◌≤◌, ◌≡◌, refl, arith, ap, ◌∙◌}
use libcore.Base.{none, List, [], ◌∷◌, ◌++◌, leb, if◌then◌else◌, ◌||◌}
use libcore.Base.{length, take, get_or, length-take, take-append_le, take-set_ge}
use libcore.Base.{take-set_end}
use libcore.Base.Int.{ℤ, pos, negsuc}
use native.Mathlib.Numerals.{add-one}
use libcore.Object.{Ptr, Heap, retain, release}
use libcore.ArrayList.{
  ArrayList, Allocator, fresh, realloc, grown, ensure_capacity, add, close_gap, shift_down, get,
  detach, remove, trim_to_size, get_size,
}
use libcore.ArrayList.Shift.{remove_at, take-shift_down}
use libcore.ArrayList.Invariant.{
  add-IsValid, IsValid, ensure_capacity_kept, ensure_capacity-slots, le-grown,
}

abbrev pub contents : ArrayList → List Ptr
contents l = take l.size l.items

-- The item that an index names, and NULL out of range.
abbrev pub nth : List Ptr → ℤ → Ptr
nth xs (pos i) = get_or xs i none
nth xs (negsuc i) = none

-- Removal at an index, which does nothing out of range.
abbrev pub remove_nth : List Ptr → ℤ → List Ptr
remove_nth xs (pos i) = remove_at i xs
remove_nth xs (negsuc i) = xs

pub length-contents : {l : ArrayList} → IsValid l → length (contents l) ≡ get_size l
unfolding get_size
length-contents {l} v = omega (arith, length-take l.size l.items)

get_or-take : (n i : ℕ) (xs : List Ptr) → i < n → get_or (take n xs) i none ≡ get_or xs i none
get_or-take zero i xs h = absurd (omega arith)
get_or-take (suc n) i [] h = refl
get_or-take (suc n) zero (x ∷ xs) h = refl
get_or-take (suc n) (suc i) (x ∷ xs) h = get_or-take n i xs (omega arith)

get_or_past : (xs : List Ptr) (i : ℕ) → length xs ≤ i → get_or xs i none ≡ none
get_or_past [] i h = refl
get_or_past (x ∷ xs) zero h = absurd (omega arith)
get_or_past (x ∷ xs) (suc i) h = get_or_past xs i (omega arith)

remove_at_past : (i : ℕ) (xs : List Ptr) → length xs ≤ i → remove_at i xs ≡ xs
remove_at_past i [] h = refl
remove_at_past zero (x ∷ xs) h = absurd (omega arith)
remove_at_past (suc i) (x ∷ xs) h = ap (λ ys. x ∷ ys) (remove_at_past i xs (omega arith))

-- `get` reads the sequence, and NULL at any index out of range.
pub get_refines : {l : ArrayList} (index : ℤ) → IsValid l → get l index ≡ nth (contents l) index
unfolding get
get_refines {l} (pos i) v =
    ground
      (arith, get_or-take l.size i l.items, get_or_past (contents l) i, length-take l.size l.items)
get_refines {l} (negsuc i) v = refl

take-take : (n m : ℕ) (xs : List Ptr) → n ≤ m → take n (take m xs) ≡ take n xs
take-take zero m xs h = refl
take-take (suc n) zero xs h = absurd (omega arith)
take-take (suc n) (suc m) [] h = refl
take-take (suc n) (suc m) (x ∷ xs) h = ap (λ ys. x ∷ ys) (take-take n m xs (omega arith))

-- What both sizes hold survives a `realloc`.
take-realloc :
    (junk : ℕ → Ptr) (n : ℕ) (items : List Ptr) (old new : ℕ)
    → n ≤ new
    → n ≤ length items
    → take n (realloc junk items old new) ≡ take n items
unfolding realloc
take-realloc junk n items old new h k =
    take-append_le n (take new items) (fresh junk old (new - old))
      (omega (arith, length-take new items))
    ∙ take-take n new items h

ensure_capacity-contents :
    (a : Allocator) {l : ArrayList} (m : ℕ)
    → IsValid l
    → contents (ensure_capacity a l m).1 ≡ contents l
unfolding ensure_capacity
ensure_capacity-contents a {l} m v = ground (
  arith,
  le-grown l.capacity m,
  take-realloc a.junk l.size l.items l.capacity (grown l.capacity m),
)

ensure_capacity-granted :
    (a : Allocator) (l : ArrayList) (m : ℕ)
    → (ensure_capacity a l m).0 ≡ (leb m l.capacity || a.grants (grown l.capacity m))
unfolding ensure_capacity
ensure_capacity-granted a l m = ground arith

pub add-contents :
    (a : Allocator) {l : ArrayList} (x : Ptr) (h : Heap)
    → IsValid l
    → let accepted = leb (l.size + 1) l.capacity || a.grants (grown l.capacity (l.size + 1)) in
      (contents (add a l x h).0 ≡ (if accepted then contents l ++ (x ∷ []) else contents l))
      × ((add a l x h).1 ≡ (if accepted then retain x h else h))
unfolding add
add-contents a {l} x h v =
    let l' = (ensure_capacity a l (l.size + 1)).1 in
    ground (
      arith,
      ensure_capacity-granted a l (l.size + 1),
      ensure_capacity_kept a l (l.size + 1),
      ensure_capacity-contents a (l.size + 1) v,
      ensure_capacity-slots a (l.size + 1) v,
      add-one l.size,
      take-set_end l.size l'.items x,
    )

-- `add` to an array of fewer than 2^30 slots appends the item and retains it, unless the array is full and
-- cannot be grown: then the sequence and the counts stay. In both cases the list stays valid, with all its
-- numbers `int`s.
pub add_refines :
    (a : Allocator) {l : ArrayList} (x : Ptr) (h : Heap)
    → IsValid l
    → l.capacity < 2 ^ 30
    → let accepted = leb (l.size + 1) l.capacity || a.grants (grown l.capacity (l.size + 1)) in
      (contents (add a l x h).0 ≡ (if accepted then contents l ++ (x ∷ []) else contents l))
      × ((add a l x h).1 ≡ (if accepted then retain x h else h))
      × IsValid (add a l x h).0
add_refines a x h v small =
    let (items, counts) = add-contents a x h v in (items, counts, add-IsValid a x h v small)

close_gap-contents :
    {l : ArrayList} (i : ℕ)
    → IsValid l
    → i < l.size
    → contents (close_gap l i) ≡ remove_at i (contents l)
unfolding close_gap
close_gap-contents {l} i v h =
    let rounds = l.size - 1 - i in
    take-set_ge (l.size - 1) (l.size - 1) (shift_down rounds i l.items) none (omega arith)
    ∙ take-shift_down rounds i (l.size - 1) l.items (omega arith) (omega arith)
    ∙ ap (λ k. remove_at i (take k l.items)) {x = suc (l.size - 1)} (omega arith)

-- `detach` hands over the item that the index names and takes it out of the sequence; out of range
-- it gives NULL and leaves the sequence alone.
pub detach_refines :
    {l : ArrayList} (index : ℤ)
    → IsValid l
    → ((detach l index).0 ≡ nth (contents l) index)
      × (contents (detach l index).1 ≡ remove_nth (contents l) index)
unfolding detach
detach_refines {l} (pos i) v = ground (
  arith,
  get_or-take l.size i l.items,
  get_or_past (contents l) i,
  remove_at_past i (contents l),
  length-take l.size l.items,
  close_gap-contents i v,
)
detach_refines {l} (negsuc i) v = (refl, refl)

module _ (finalize : ℕ → Heap → Heap) where
  -- `remove` takes the item out of the sequence and releases it, and nothing else.
  pub remove_refines :
      {l : ArrayList} (index : ℤ) (h : Heap)
      → IsValid l
      → (contents (remove finalize l index h).0 ≡ remove_nth (contents l) index)
        × ((remove finalize l index h).1 ≡ release finalize (nth (contents l) index) h)
  unfolding remove release
  remove_refines {l} (pos i) h v = ground (
    arith,
    get_or-take l.size i l.items,
    get_or_past (contents l) i,
    remove_at_past i (contents l),
    length-take l.size l.items,
    close_gap-contents i v,
  )
  remove_refines {l} (negsuc i) h v = (refl, refl)

-- `trimToSize` keeps the sequence.
pub trim_to_size-contents :
    (a : Allocator) {l : ArrayList} → IsValid l → contents (trim_to_size a l) ≡ contents l
unfolding trim_to_size
trim_to_size-contents a {l} v = ground (
  arith,
  take-realloc a.junk l.size l.items l.capacity l.size,
  take-realloc a.junk l.size l.items l.capacity 1,
)
