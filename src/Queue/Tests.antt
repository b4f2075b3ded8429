-- ===== src/Queue/Tests.antt =====
-- A queue of two items, and the theorems at it.
use libcore.Base.{◌≡◌, refl, true, none, arith, some, [], ◌∷◌}
use libcore.ArrayList.Invariant.{IsValid}
use libcore.Queue.{Queue}
use libcore.Queue.Laws.{view, dequeue_times, enqueue_all, dequeue_times-enqueue_all}
use libcore.ArrayList.{Allocator}
use libcore.Object.{Heap}

abbrev two : Queue
two = record { container = record { items = some 5 ∷ some 6 ∷ []; size = 2; capacity = 2 } }

two-IsValid : IsValid two.container
two-IsValid = omega arith

abbrev memory : Allocator
memory = record { grants = λ n. true; junk = λ i. none }

abbrev heap : Heap
heap = record { ref_count = λ o. 1; freed = [] }

dequeue_times-enqueue_all_example :
    let r = dequeue_times 4 (enqueue_all memory (some 7 ∷ some 8 ∷ []) two heap).0 in
    (r.0 ≡ some 5 ∷ some 6 ∷ some 7 ∷ some 8 ∷ []) × (view r.1 ≡ [])
dequeue_times-enqueue_all_example =
    dequeue_times-enqueue_all memory (some 7 ∷ some 8 ∷ []) heap (λ n h. refl) two-IsValid
      (omega arith) (omega arith)
