-- ===== src/Queue.antt =====
-- src/queue.c: a queue over an ArrayList, whose first item is the front. Each function is what runs
-- while the queue's lock is held. `forEach` and `iterator` are the list's own.
pub mod Laws
mod Tests
use libcore.Base.{ℕ, Bool, Option, none, some, ◌==◌, if◌then◌else◌}
use libcore.Base.Int.{ℤ, pos}
use libcore.Object.{Ptr, Heap}
use libcore.ArrayList
use libcore.ArrayList.{ArrayList, Allocator}

pub record Queue : Type 0 where
  pub container : ArrayList

pub enqueue : Allocator → Queue → Ptr → Heap → Queue × Heap
enqueue a q item h =
    let (l, h') = ArrayList.add a q.container item h in (record { container = l }, h')

pub dequeue : Queue → Ptr × Queue
dequeue q =
    if ArrayList.get_size q.container == 0
    then (none, q)
    else let (item, l) = ArrayList.detach q.container (pos 0) in (item, record { container = l })

pub peek : Queue → Ptr
peek q = ArrayList.get q.container (pos 0)

pub is_empty : Queue → Bool
is_empty q = ArrayList.get_size q.container == 0

pub size : Queue → ℕ
size q = ArrayList.get_size q.container

pub for_each : Allocator → (Ptr → Heap → Heap) → Queue → Heap → Heap
for_each a action q h = ArrayList.for_each a action q.container h

-- The flags say whether the three allocations succeed.
pub new_queue : Bool → Bool → Bool → ℤ → Option Queue
new_queue queue_ok list_ok items_ok initial_capacity =
    if queue_ok
    then elim (ArrayList.new_array_list list_ok items_ok initial_capacity) [
      | none ↦ none
      | some l ↦ some (record { container = l })
    ]
    else none
