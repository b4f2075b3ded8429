-- ===== src/Stack/Laws.antt =====
-- The stack is last in, first out.
use libcore.Base.{ℕ, zero, suc, ◌+◌, ◌-◌, ◌≡◌, refl, arith, ap}
use libcore.Base.{none, List, [], ◌∷◌, ◌++◌, length, get_or, leb, if◌then◌else◌, ◌||◌, take}
use libcore.Base.{length-take}
use libcore.Base.Int.{pos}
use libcore.Object.{Ptr, Heap, retain}
use libcore.ArrayList.{Allocator, get_size, grown}
use libcore.ArrayList.Shift.{remove_at}
use libcore.ArrayList.Invariant.{IsValid}
use libcore.ArrayList.Refine.{contents, add-contents, detach_refines, get_refines}
use libcore.Stack.{Stack, push, pop, peek}

-- The items from the last to the first.
pub from_last : List Ptr → List Ptr
from_last [] = []
from_last (x ∷ xs) = from_last xs ++ (x ∷ [])

from_last-append : (xs : List Ptr) (x : Ptr) → from_last (xs ++ (x ∷ [])) ≡ x ∷ from_last xs
unfolding from_last
from_last-append [] x = refl
from_last-append (y ∷ ys) x = ap (λ zs. zs ++ (y ∷ [])) (from_last-append ys x)

from_last-remove_at :
    (n : ℕ) (xs : List Ptr)
    → suc n ≡ length xs
    → from_last xs ≡ get_or xs n none ∷ from_last (remove_at n xs)
unfolding from_last
from_last-remove_at n [] e = absurd (omega arith)
from_last-remove_at zero (x ∷ []) e = refl
from_last-remove_at zero (x ∷ y ∷ ys) e = absurd (omega arith)
from_last-remove_at (suc n) (x ∷ xs) e =
    ap (λ zs. zs ++ (x ∷ [])) (from_last-remove_at n xs (omega arith))

-- The abstract stack, top first.
abbrev pub view : Stack → List Ptr
view s = from_last (contents s.container)

abbrev pub top : List Ptr → Ptr
top [] = none
top (x ∷ xs) = x

abbrev pub below : List Ptr → List Ptr
below [] = []
below (x ∷ xs) = xs

view_empty : (n : ℕ) (items : List Ptr) → n ≡ 0 → from_last (take n items) ≡ []
unfolding from_last
view_empty zero items e = refl
view_empty (suc n) items e = absurd (omega arith)

-- `push` puts the item on top and retains it, unless the array is full and cannot be grown: then
-- the stack and the counts stay.
pub push_refines :
    (a : Allocator) {s : Stack} (x : Ptr) (h : Heap)
    → IsValid s.container
    → let l = s.container in
      let accepted = leb (l.size + 1) l.capacity || a.grants (grown l.capacity (l.size + 1)) in
      (view (push a s x h).0 ≡ (if accepted then x ∷ view s else view s))
      × ((push a s x h).1 ≡ (if accepted then retain x h else h))
unfolding push
push_refines a {s} x h v =
    ground (arith, add-contents a x h v, from_last-append (contents s.container) x)

-- `pop` hands over the top and leaves what was below it; of an empty stack it gives NULL. `peek`
-- reads the same item.
pub pop_refines :
    {s : Stack}
    → IsValid s.container
    → ((pop s).0 ≡ top (view s)) × (view (pop s).1 ≡ below (view s)) × (peek s ≡ top (view s))
unfolding pop peek get_size
pop_refines {s} v =
    let n = s.container.size in
    ground (
      arith,
      detach_refines (pos (n - 1)) v,
      get_refines (pos (n - 1)) v,
      length-take n s.container.items,
      from_last-remove_at (n - 1) (contents s.container),
      view_empty n s.container.items,
    )
