-- ===== src/ArrayList/Invariant.antt =====
-- The representation invariant of an ArrayList, kept by every operation.
use libcore.Base.{ℕ, zero, suc, ◌+◌, ◌-◌, ◌^◌, ◌<◌, ◌≤◌, ◌≡◌, refl, arith, List}
use libcore.Base.{length, take, length-append, length-take, length-set}
use libcore.Base.{if◌then◌else◌, none}
use libcore.Base.Int.{ℤ, pos, negsuc}
use libcore.Object.{Ptr, Heap}
use libcore.ArrayList.{
  ArrayList, Allocator, fresh, realloc, grown, ensure_capacity, add, close_gap, shift_down, detach,
  remove, remove_result, trim_to_size,
}
use libcore.ArrayList.Shift.{length-shift_down}

-- The items fit the array, the array has the slots that the capacity says, and both are `int`s.
pub record IsValid (l : ArrayList) : Type 0 where
  pub fits : l.size ≤ l.capacity
  pub slots : length l.items ≡ l.capacity
  pub small : l.capacity < 2 ^ 31
  pub some_room : 0 < l.capacity

length-fresh : (junk : ℕ → Ptr) (i n : ℕ) → length (fresh junk i n) ≡ n
unfolding fresh
length-fresh junk i zero = refl
length-fresh junk i (suc n) = omega (arith, length-fresh junk (suc i) n)

pub length-realloc :
    (junk : ℕ → Ptr) (items : List Ptr) (old new : ℕ)
    → length items ≡ old
    → length (realloc junk items old new) ≡ new
unfolding realloc
length-realloc junk items old new e = omega (
  arith,
  length-append {0} (take new items) (fresh junk old (new - old)),
  length-take new items,
  length-fresh junk old (new - old),
)

pub le-grown : (c m : ℕ) → m ≤ grown c m
unfolding grown
le-grown c m = ground arith

grown-small : (c m : ℕ) → c < 2 ^ 30 → m < 2 ^ 31 → grown c m < 2 ^ 31
unfolding grown
grown-small c m hc hm = ground arith

-- Growing keeps the invariant, below half of the `int`s.
pub ensure_capacity-IsValid :
    (a : Allocator) {l : ArrayList} (m : ℕ)
    → IsValid l
    → l.capacity < 2 ^ 30
    → m < 2 ^ 31
    → IsValid (ensure_capacity a l m).1
unfolding ensure_capacity
ensure_capacity-IsValid a {l} m v hc hm = ground (
  arith,
  le-grown l.capacity m,
  grown-small l.capacity m hc hm,
  length-realloc a.junk l.items l.capacity (grown l.capacity m),
)

pub ensure_capacity-slots :
    (a : Allocator) {l : ArrayList} (m : ℕ)
    → IsValid l
    → length (ensure_capacity a l m).1.items ≡ (ensure_capacity a l m).1.capacity
unfolding ensure_capacity
ensure_capacity-slots a {l} m v =
    ground (arith, length-realloc a.junk l.items l.capacity (grown l.capacity m))

-- Growing leaves the size alone, and gives what was asked for where it succeeds.
pub ensure_capacity_kept :
    (a : Allocator) (l : ArrayList) (m : ℕ)
    → let (granted, l') = ensure_capacity a l m in
      (l'.size ≡ l.size) × (if granted then m else 0) ≤ l'.capacity
unfolding ensure_capacity
ensure_capacity_kept a l m = ground (arith, le-grown l.capacity m)

-- `add` keeps the invariant, below half of the `int`s, whether or not the memory is granted.
pub add-IsValid :
    (a : Allocator) {l : ArrayList} (x : Ptr) (h : Heap)
    → IsValid l
    → l.capacity < 2 ^ 30
    → IsValid (add a l x h).0
unfolding add
add-IsValid a {l} x h v hc =
    let grown_list = (ensure_capacity a l (l.size + 1)).1 in
    ground (
      arith,
      ensure_capacity-IsValid a (l.size + 1) v hc,
      ensure_capacity_kept a l (l.size + 1),
      length-set grown_list.items grown_list.size x,
    )

-- While there are fewer than 2^29 items the capacity stays below 2^30.
pub add-capacity :
    (a : Allocator) (l : ArrayList) (x : Ptr) (h : Heap)
    → l.size < 2 ^ 29
    → l.capacity < 2 ^ 30
    → (add a l x h).0.capacity < 2 ^ 30
unfolding add ensure_capacity grown
add-capacity a l x h n c = ground arith

pub grown_below :
    (l : ArrayList)
    → l.size < 2 ^ 29
    → l.capacity < suc l.size
    → grown l.capacity (l.size + 1) < 2 ^ 30
unfolding grown
grown_below l n c = ground arith

pub close_gap-IsValid : {l : ArrayList} (i : ℕ) → IsValid l → IsValid (close_gap l i)
unfolding close_gap
close_gap-IsValid {l} i v = ground (
  arith,
  length-set (shift_down (l.size - 1 - i) i l.items) (l.size - 1) none,
  length-shift_down (l.size - 1 - i) i l.items,
)

-- Every way to take an item out keeps the invariant, for every index.
pub detach-IsValid : {l : ArrayList} (index : ℤ) → IsValid l → IsValid (detach l index).1
unfolding detach
detach-IsValid {l} (pos i) v = ground (arith, close_gap-IsValid i v)
detach-IsValid {l} (negsuc i) v = v

pub remove_result-eq-detach :
    (l : ArrayList) (index : ℤ) → remove_result l index ≡ (detach l index).1
unfolding remove_result detach
remove_result-eq-detach l (pos i) = ground arith
remove_result-eq-detach l (negsuc i) = refl

pub remove-eq-detach :
    (finalize : ℕ → Heap → Heap) (l : ArrayList) (index : ℤ) (h : Heap)
    → (remove finalize l index h).0 ≡ (detach l index).1
unfolding remove detach
remove-eq-detach finalize l (pos i) h = ground arith
remove-eq-detach finalize l (negsuc i) h = refl

pub trim_to_size-IsValid : (a : Allocator) {l : ArrayList} → IsValid l → IsValid (trim_to_size a l)
unfolding trim_to_size
trim_to_size-IsValid a {l} v = ground (
  arith,
  length-realloc a.junk l.items l.capacity l.size,
  length-realloc a.junk l.items l.capacity 1,
)
