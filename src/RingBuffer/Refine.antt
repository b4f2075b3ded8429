-- ===== src/RingBuffer/Refine.antt =====
-- A ring behaves as a queue of at most `capacity` items that drops what does not fit.
use libcore.Base.{ℕ, ◌+◌, ◌-◌, ◌%◌, ◌^◌, ◌<◌, ◌≤◌, ◌≡◌, ◌≢◌, arith, ap}
use libcore.Base.{
  Bool, true, false, some, none, List, [], ◌∷◌, ◌++◌, length, ltb, if◌then◌else◌, ◌&&◌,
}
use libcore.Base.{length-set, length-replicate}
use libcore.Object.{Ptr}
use libcore.RingBuffer.{RingBuffer, push, pop, take_tail, advance, clear}
use libcore.RingBuffer.Window.{window, window-push, window-pop, window-zero}
use native.Mathlib.Numerals.{add-one}
use native.Mathlib.Nat.{mod-add-mod}

-- The array has the slots that the capacity says, and the head is where the next item goes.
pub record IsValid (r : RingBuffer) : Type 0 where
  pub slots : length r.items ≡ r.capacity
  pub some_room : 0 < r.capacity
  pub small : r.capacity < 2 ^ 64
  pub tail_in : r.tail < r.capacity
  pub fits : r.count ≤ r.capacity
  pub head_at : r.head ≡ (r.tail + r.count) % r.capacity

-- Oldest first.
abbrev pub contents : RingBuffer → List Ptr
contents r = window r.items r.capacity r.tail r.count

abbrev pub is_some : Ptr → Bool
is_some none = false
is_some (some x) = true

abbrev pub oldest : List Ptr → Ptr
oldest [] = none
oldest (x ∷ xs) = x

abbrev pub later : List Ptr → List Ptr
later [] = []
later (x ∷ xs) = xs

advance_lem : (i cap : ℕ) → i < cap → cap < 2 ^ 64 → advance i cap ≡ (i + 1) % cap
advance_lem i cap h k = ap (λ j. j % cap) (omega arith)

advance-add : (t n cap : ℕ) → ((t + 1) % cap + n) % cap ≡ (t + (n + 1)) % cap
advance-add t n cap = rw mod-add-mod (ap (λ j. j % cap) (omega arith))

add-advance : (t n cap : ℕ) → ((t + n) % cap + 1) % cap ≡ (t + (n + 1)) % cap
add-advance t n cap = rw mod-add-mod (ap (λ j. j % cap) (omega arith))

-- Every operation keeps the invariant.
pub push-IsValid : {r : RingBuffer} (x : Ptr) → IsValid r → IsValid (push r x).1
unfolding push
push-IsValid {r} none v = v
push-IsValid {r} (some x) v = ground (
  arith,
  length-set r.items r.head (some x),
  advance_lem r.head r.capacity,
  add-advance r.tail r.count r.capacity,
)

take_tail-IsValid : {r : RingBuffer} → IsValid r → r.count ≢ 0 → IsValid (take_tail r).1
unfolding take_tail
take_tail-IsValid {r} v some_item = ground (
  arith,
  length-set r.items r.tail none,
  advance_lem r.tail r.capacity,
  advance-add r.tail (r.count - 1) r.capacity,
)

pub pop-IsValid : {r : RingBuffer} → IsValid r → IsValid (pop r).1
unfolding pop
pop-IsValid {r} v = ground (arith, take_tail-IsValid v)

pub clear-IsValid : {r : RingBuffer} → IsValid r → IsValid (clear r) × (contents (clear r) ≡ [])
unfolding clear
clear-IsValid {r} v =
    let slots = length-replicate {A = Ptr} r.capacity none in
    (ground arith, window-zero _ r.capacity 0)

-- `push` puts an item that is not NULL behind the others and says so, where there is room; where
-- there is none, or the item is NULL, it says so and the ring stays as it is.
pub push_refines :
    {r : RingBuffer} (x : Ptr)
    → IsValid r
    → let accepted = ltb r.count r.capacity && is_some x in
      ((push r x).0 ≡ accepted)
      × (contents (push r x).1 ≡ (if accepted then contents r ++ (x ∷ []) else contents r))
unfolding push
push_refines {r} none v = ground arith
push_refines {r} (some x) v =
    ground (arith, window-push r.items r.capacity r.tail r.count (some x), add-one r.count)

-- `pop` hands over the oldest item and leaves the others; of an empty ring it gives NULL.
pub pop_refines :
    {r : RingBuffer}
    → IsValid r
    → ((pop r).0 ≡ oldest (contents r)) × (contents (pop r).1 ≡ later (contents r))
unfolding pop take_tail
pop_refines {r} v = ground (
  arith,
  window-zero r.items r.capacity r.tail,
  window-pop r.items r.capacity r.tail (r.count - 1),
  advance_lem r.tail r.capacity,
)
