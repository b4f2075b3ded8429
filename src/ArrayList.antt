-- ===== src/ArrayList.antt =====
-- src/arraylist.c: a growing array of retained objects. `self` is never NULL, and each function is
-- what runs while the list's lock is held. An operation that touches counts takes and returns the
-- heap. `int`s that overflow are undefined in C: `Invariant` keeps them in range.
pub mod Shift
pub mod Invariant
pub mod Refine
pub mod Traverse
pub mod Iterator
mod Tests
use libcore.Base.{ℕ, zero, suc, ◌+◌, ◌-◌, ◌*◌, Bool, true, false, Option, none, some, List, [], ◌∷◌}
use libcore.Base.{◌++◌, ◌&&◌, ltb, leb, ◌==◌, if◌then◌else◌, get_or, set, take, drop, replicate}
use libcore.Base.Int.{ℤ, pos, negsuc}
use libcore.Object.{Ptr, Heap, retain, release}

pub record ArrayList : Type 0 where
  pub items : List Ptr
  pub size : ℕ
  pub capacity : ℕ

-- What `malloc` and `realloc` decide: whether a request for so many slots succeeds, and what the
-- slots past the old end hold.
pub record Allocator : Type 0 where
  pub grants : ℕ → Bool
  pub junk : ℕ → Ptr

-- `n` slots of fresh memory, from slot `i` on.
pub fresh : (ℕ → Ptr) → ℕ → ℕ → List Ptr
fresh junk i zero = []
fresh junk i (suc n) = junk i ∷ fresh junk (suc i) n

-- The array after a `realloc` from `old` slots to `new` ones.
pub realloc : (ℕ → Ptr) → List Ptr → ℕ → ℕ → List Ptr
realloc junk items old new = take new items ++ fresh junk old (new - old)

-- `(self->capacity * 2)`, or what is asked for where that is more.
pub grown : ℕ → ℕ → ℕ
grown capacity min_capacity =
    let new_cap = capacity * 2 in if ltb new_cap min_capacity then min_capacity else new_cap

pub ensure_capacity : Allocator → ArrayList → ℕ → Bool × ArrayList
ensure_capacity a l min_capacity =
    if leb min_capacity l.capacity
    then (true, l)
    else let new_cap = grown l.capacity min_capacity in
      if a.grants new_cap
      then (
        true,
        record l { items = realloc a.junk l.items l.capacity new_cap; capacity = new_cap },
      )
      else (false, l)

pub add : Allocator → ArrayList → Ptr → Heap → ArrayList × Heap
add a l item h =
    let (granted, l') = ensure_capacity a l (l.size + 1) in
    if granted
    then (record l' { items = set l'.items l'.size item; size = l'.size + 1 }, retain item h)
    else (l', h)

pub is_empty : ArrayList → Bool
is_empty l = l.size == 0

unfoldable pub get_size : ArrayList → ℕ
get_size l = l.size

-- The test `index >= 0 && index < self->size`, with the index that passes it.
in_range : ℤ → ℕ → Option ℕ
in_range (pos i) size = if ltb i size then some i else none
in_range (negsuc i) size = none

pub get : ArrayList → ℤ → Ptr
unfolding in_range
get l index = elim (in_range index l.size) [ none ↦ none | some i ↦ get_or l.items i none ]

-- `for (i = index; i < size - 1; i++) items[i] = items[i + 1]`, with the rounds left counted.
pub shift_down : ℕ → ℕ → List Ptr → List Ptr
shift_down zero i items = items
shift_down (suc n) i items = shift_down n (suc i) (set items i (get_or items (suc i) none))

-- The loop, `size--` and the NULL written behind the last item.
pub close_gap : ArrayList → ℕ → ArrayList
unfolding shift_down
close_gap l i =
    let items = shift_down (l.size - 1 - i) i l.items in
    record l { items = set items (l.size - 1) none; size = l.size - 1 }

-- `detach` hands the item over; `removeResult` drops it without a release.
pub detach : ArrayList → ℤ → Ptr × ArrayList
unfolding in_range
detach l index = elim (in_range index l.size) [
  | none ↦ (none, l)
  | some i ↦ (get_or l.items i none, close_gap l i)
]

pub remove_result : ArrayList → ℤ → ArrayList
unfolding in_range
remove_result l index = elim (in_range index l.size) [ none ↦ l | some i ↦ close_gap l i ]

-- `shrinks` tells whether `realloc` to a smaller array succeeds.
pub trim_to_size : Allocator → ArrayList → ArrayList
trim_to_size a l =
    if ltb l.size l.capacity
    then (let new_cap = if l.size == 0 then 1 else l.size in
        if a.grants new_cap
        then record l { items = realloc a.junk l.items l.capacity new_cap; capacity = new_cap }
        else l)
    else l

-- The first item that `compare` finds equal to the target; `n` items are left, from slot `i` on.
pub find_from : (Ptr → Bool) → List Ptr → ℕ → ℕ → Ptr
find_from same items i zero = none
find_from same items i (suc n) =
    let rest = find_from same items (suc i) n in
    if same (get_or items i none) then get_or items i none else rest

-- `same` is `compare(item, target) == 0`, for the caller's `compare` and target.
pub find : (Ptr → Bool) → ArrayList → Ptr
unfolding find_from
find same l = find_from same l.items 0 l.size

-- `action` on the `n` items of the snapshot from slot `i` on.
pub act_from : (Ptr → Heap → Heap) → List Ptr → ℕ → ℕ → Heap → Heap
act_from action items i zero h = h
act_from action items i (suc n) h = act_from action items (suc i) n (action (get_or items i none) h)

-- The items are copied first, and `action` runs on the copy, outside the lock; nothing runs where
-- the copy cannot be allocated.
pub for_each : Allocator → (Ptr → Heap → Heap) → ArrayList → Heap → Heap
unfolding act_from
for_each a action l h =
    if ltb 0 l.size && a.grants l.size then act_from action (take l.size l.items) 0 l.size h else h

module _ (finalize : ℕ → Heap → Heap) where
  -- The item is released before the gap is closed.
  pub remove : ArrayList → ℤ → Heap → ArrayList × Heap
  unfolding in_range
  remove l index h = elim (in_range index l.size) [
    | none ↦ (l, h)
    | some i ↦ (close_gap l i, release finalize (get_or l.items i none) h)
  ]

  -- Release and NULL the `n` slots from `i` on.
  pub clear_from : ℕ → ℕ → List Ptr → Heap → List Ptr × Heap
  clear_from zero i items h = (items, h)
  clear_from (suc n) i items h =
      clear_from n (suc i) (set items i none) (release finalize (get_or items i none) h)

  pub clear : ArrayList → Heap → ArrayList × Heap
  unfolding clear_from
  clear l h =
      let (items, h') = clear_from l.size 0 l.items h in (record l { items = items; size = 0 }, h')

  -- `ArrayList_Finalize`: release what is left (a release of NULL does nothing), free the array.
  pub array_list_finalize : ArrayList → Heap → Heap
  unfolding clear_from
  array_list_finalize l h = (clear_from l.size 0 l.items h).1

pub first_capacity : ℤ → ℕ
first_capacity (pos n) = if n == 0 then 10 else n
first_capacity (negsuc n) = 10

-- The flags say whether the two allocations succeed. `calloc` gives NULL slots.
pub new_array_list : Bool → Bool → ℤ → Option ArrayList
unfolding first_capacity
new_array_list self_ok items_ok initial_capacity =
    let capacity = first_capacity initial_capacity in
    if self_ok && items_ok
    then some (record { items = replicate capacity none; size = 0; capacity = capacity })
    else none
