-- ===== src/Stack.antt =====
-- src/stack.c: a stack over an ArrayList, whose last item is the top. Each function is what runs
-- while the stack's lock is held.
pub mod Laws
mod Tests
use libcore.Base.{ℕ, ◌-◌, Bool, Option, none, some, leb, ◌==◌, if◌then◌else◌}
use libcore.Base.Int.{ℤ, pos}
use libcore.Object.{Ptr, Heap}
use libcore.ArrayList
use libcore.ArrayList.{ArrayList, Allocator}

pub record Stack : Type 0 where
  pub container : ArrayList

pub push : Allocator → Stack → Ptr → Heap → Stack × Heap
push a s item h = let (l, h') = ArrayList.add a s.container item h in (record { container = l }, h')

pub pop : Stack → Ptr × Stack
pop s =
    let current_size = ArrayList.get_size s.container in
    if current_size == 0
    then (none, s)
    else let (item, l) = ArrayList.detach s.container (pos (current_size - 1)) in
      (item, record { container = l })

pub peek : Stack → Ptr
peek s =
    let current_size = ArrayList.get_size s.container in
    if current_size == 0 then none else ArrayList.get s.container (pos (current_size - 1))

-- There is no spare slot at this moment; `push` would grow the array.
pub is_full : Stack → Bool
is_full s = leb s.container.capacity s.container.size

pub is_empty : Stack → Bool
is_empty s = ArrayList.get_size s.container == 0

pub size : Stack → ℕ
size s = ArrayList.get_size s.container

-- `new_ArrayList` is not checked here: the outer `none` is a NULL stack, the inner one a stack whose
-- container is NULL.
new_stack : Bool → Bool → Bool → ℤ → Option (Option Stack)
new_stack stack_ok list_ok items_ok initial_capacity =
    if stack_ok
    then some (elim (ArrayList.new_array_list list_ok items_ok initial_capacity) [
      | none ↦ none
      | some l ↦ some (record { container = l })
    ])
    else none
