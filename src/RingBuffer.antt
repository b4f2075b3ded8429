-- ===== src/RingBuffer.antt =====
-- src/ring_buffer.c: a ring of pointers of a fixed capacity, that drops what does not fit. Each
-- function is what runs while the ring's lock is held; `self` is never NULL. Sizes are `size_t`.
pub mod Window
pub mod Refine
pub mod Session
mod Tests
use libcore.Base.{
  ℕ, ◌+◌, ◌-◌, ◌*◌, ◌/◌, ◌%◌, ◌^◌, Bool, true, false, Option, none, some, List, ◌&&◌,
}
use libcore.Base.{leb, ◌==◌, if◌then◌else◌, get_or, set, replicate}
use libcore.Object.{Ptr}

pub record RingBuffer : Type 0 where
  pub items : List Ptr
  pub capacity : ℕ
  pub head : ℕ
  pub tail : ℕ
  pub count : ℕ

-- `(index + 1) % capacity`.
abbrev pub advance : ℕ → ℕ → ℕ
advance index capacity = (index + 1) % 2 ^ 64 % capacity

-- A NULL item is refused; an item that does not fit is dropped.
pub push : RingBuffer → Ptr → Bool × RingBuffer
push r none = (false, r)
push r (some x) = if leb r.capacity r.count then (false, r) else (
  true,
  record r {
    items = set r.items r.head (some x);
    head = advance r.head r.capacity;
    count = (r.count + 1) % 2 ^ 64;
  },
)

-- The item at the tail goes out, and its slot is set to NULL.
pub take_tail : RingBuffer → Ptr × RingBuffer
take_tail r = (
  get_or r.items r.tail none,
  record r {
    items = set r.items r.tail none;
    tail = advance r.tail r.capacity;
    count = r.count - 1;
  },
)

pub pop : RingBuffer → Ptr × RingBuffer
pop r = if r.count == 0 then (none, r) else take_tail r

-- The wait gives the lock away: `while_waiting` is what the other threads make of the ring
-- meanwhile, whether the wait ends by a signal, by the timeout or without a reason.
pub pop_wait : (RingBuffer → RingBuffer) → RingBuffer → Ptr × RingBuffer
pop_wait while_waiting r =
    let r' = if r.count == 0 then while_waiting r else r in
    if r'.count == 0 then (none, r') else take_tail r'

-- The time at which the wait of `timeout_ms` milliseconds ends, from the present seconds and
-- nanoseconds, for a timeout that is not negative.
pub deadline : ℕ → ℕ → ℕ → ℕ × ℕ
deadline tv_sec tv_nsec timeout_ms =
    let sec = tv_sec + timeout_ms / 1000 in
    let nsec = tv_nsec + timeout_ms % 1000 * 1000000 in
    if leb 1000000000 nsec then (sec + 1, nsec - 1000000000) else (sec, nsec)

pub get_size : RingBuffer → ℕ
get_size r = r.count

pub is_empty : RingBuffer → Bool
unfolding get_size
is_empty r = get_size r == 0

pub is_full : RingBuffer → Bool
is_full r = leb r.capacity r.count

pub clear : RingBuffer → RingBuffer
clear r = record r { items = replicate r.capacity none; head = 0; tail = 0; count = 0 }

-- The flags say whether the two allocations succeed.
pub new_ring_buffer : Bool → Bool → ℕ → Option RingBuffer
new_ring_buffer self_ok items_ok requested =
    let capacity = if requested == 0 then 1024 else requested in
    if self_ok && items_ok
    then some (record {
      items = replicate capacity none;
      capacity = capacity;
      head = 0;
      tail = 0;
      count = 0;
    })
    else none
