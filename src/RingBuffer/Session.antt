-- ===== src/RingBuffer/Session.antt =====
-- Producers and consumers on one ring: every order in which their calls take the lock.
use libcore.Base.{ℕ, ◌+◌, ◌*◌, ◌<◌, ◌≡◌, refl, arith, Bool, true, false, none, List, [], ◌∷◌, ◌++◌}
use libcore.Base.{length, ltb, ◌&&◌, if◌then◌else◌}
use libcore.Object.{Ptr}
use libcore.RingBuffer.{RingBuffer, push, pop, pop_wait, take_tail, deadline, is_empty}
use libcore.RingBuffer.Refine.{
  IsValid, contents, is_some, oldest, later, push-IsValid, pop-IsValid, push_refines, pop_refines,
}
use libcore.RingBuffer.Window.{length-window}

-- One call of some thread, and what that thread is given back.
pub data Call : Type 0 where
  put : Ptr → Call
  get : Call

pub data Reply : Type 0 where
  stored : Bool → Reply
  item : Ptr → Reply

unfoldable pub serve_ring : RingBuffer → List Call → List Reply
serve_ring r [] = []
serve_ring r (put x ∷ calls) = let (ok, r') = push r x in stored ok ∷ serve_ring r' calls
serve_ring r (get ∷ calls) = let (x, r') = pop r in item x ∷ serve_ring r' calls

-- The specification: a queue of at most `cap` items.
pub serve_queue : ℕ → List Ptr → List Call → List Reply
serve_queue cap q [] = []
serve_queue cap q (put x ∷ calls) =
    let accepted = ltb (length q) cap && is_some x in
    stored accepted ∷ serve_queue cap (if accepted then q ++ (x ∷ []) else q) calls
serve_queue cap q (get ∷ calls) = item (oldest q) ∷ serve_queue cap (later q) calls

capacity_kept :
    (r : RingBuffer) (x : Ptr)
    → ((push r x).1.capacity ≡ r.capacity) × ((pop r).1.capacity ≡ r.capacity)
unfolding push pop take_tail
capacity_kept r x = (ground arith, ground arith)

length-contents : (r : RingBuffer) → length (contents r) ≡ r.count
length-contents r = length-window r.items r.capacity r.tail r.count

-- In whatever order the calls of the threads take the lock, each call is answered as by a queue of
-- bounded size: no item is lost after it was stored, handed out twice or out of order.
pub serve_refines :
    (calls : List Call) {r : RingBuffer}
    → IsValid r
    → serve_ring r calls ≡ serve_queue r.capacity (contents r) calls
unfolding serve_ring serve_queue
serve_refines [] v = refl
serve_refines (put x ∷ calls) {r} v = ground (
  arith,
  push_refines x v,
  capacity_kept r x,
  length-contents r,
  serve_refines calls (push-IsValid x v),
)
serve_refines (get ∷ calls) {r} v =
    ground (arith, pop_refines v, capacity_kept r none, serve_refines calls (pop-IsValid v))

if_IsValid : (b : Bool) (r s : RingBuffer) → IsValid r → IsValid s → IsValid (if b then r else s)
if_IsValid true r s v w = v
if_IsValid false r s v w = w

pop_wait-eq-pop :
    (while_waiting : RingBuffer → RingBuffer) (r : RingBuffer)
    → pop_wait while_waiting r ≡ pop (if is_empty r then while_waiting r else r)
unfolding pop_wait pop is_empty
pop_wait-eq-pop while_waiting r = ground arith

-- A wait that leaves the ring valid ends as a `pop` of the ring that is found afterwards; a ring
-- that held an item is not waited for.
pub pop_wait_refines :
    (while_waiting : RingBuffer → RingBuffer) {r : RingBuffer}
    → IsValid r
    → (IsValid r → IsValid (while_waiting r))
    → let found = if is_empty r then while_waiting r else r in
      ((pop_wait while_waiting r).0 ≡ oldest (contents found))
      × (contents (pop_wait while_waiting r).1 ≡ later (contents found))
pop_wait_refines while_waiting {r} v keep =
    rw (pop_wait-eq-pop while_waiting r)
      (pop_refines (if_IsValid (is_empty r) (while_waiting r) r (keep v) v))

-- The wait ends `timeout_ms` milliseconds from now, at a time whose nanoseconds are below a second.
pub deadline_lem :
    (sec nsec timeout_ms : ℕ)
    → nsec < 1000000000
    → let (end_sec, end_nsec) = deadline sec nsec timeout_ms in
      (end_nsec < 1000000000)
      × (end_sec * 1000000000 + end_nsec ≡ sec * 1000000000 + nsec + timeout_ms * 1000000)
unfolding deadline
deadline_lem sec nsec timeout_ms h = ground arith
