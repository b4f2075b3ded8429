-- ===== src/ArrayList/Tests.antt =====
-- A list of capacity 2, and the theorems at inputs that meet their hypotheses.
use libcore.Base.{ℕ, ◌≡◌, refl, arith, true, false, some, none, [], ◌∷◌, Bool, ◌==◌}
use libcore.Base.Int.{pos, negsuc}
use libcore.Object.{Ptr, Heap, retain}
use libcore.ArrayList.{
  ArrayList, Allocator, add, detach, close_gap, ensure_capacity, realloc, grown, fresh,
  new_array_list,
}
use libcore.ArrayList.Invariant.{IsValid}
use libcore.ArrayList.Refine.{contents, add_refines}

-- Memory is granted up to 100 slots, and comes filled with a stale pointer.
abbrev small_memory : Allocator
small_memory = record {
  grants = λ n. elim (n == 100) [ true ↦ false | false ↦ true ];
  junk = λ _. some 99;
}

abbrev heap : Heap
heap = record { ref_count = λ _. 1; freed = [] }

abbrev no_finalize : ℕ → Heap → Heap
no_finalize obj h = h

-- Full, so the next `add` grows it.
abbrev full_list : ArrayList
full_list = record { items = some 5 ∷ some 6 ∷ []; size = 2; capacity = 2 }

full_list-IsValid : IsValid full_list
full_list-IsValid = omega arith

add_grows :
    (add small_memory full_list (some 7) heap).0
    ≡ record { items = some 5 ∷ some 6 ∷ some 7 ∷ some 99 ∷ []; size = 3; capacity = 4 }
unfolding add ensure_capacity realloc grown fresh
add_grows = refl

detach_first :
    detach full_list (pos 0) ≡ (some 5, record full_list { items = some 6 ∷ none ∷ []; size = 1 })
unfolding detach close_gap
detach_first = refl

new_list_default :
    new_array_list true true (negsuc 0)
    ≡ some (record {
      items = none ∷ none ∷ none ∷ none ∷ none ∷ none ∷ none ∷ none ∷ none ∷ none ∷ [];
      size = 0;
      capacity = 10;
    })
unfolding new_array_list
new_list_default = refl

add_refines_example :
    (contents (add small_memory full_list (some 7) heap).0 ≡ some 5 ∷ some 6 ∷ some 7 ∷ [])
    × ((add small_memory full_list (some 7) heap).1 ≡ retain (some 7) heap)
    × IsValid (add small_memory full_list (some 7) heap).0
unfolding grown
add_refines_example = add_refines small_memory (some 7) heap full_list-IsValid (omega arith)

abbrev is_six : Ptr → Bool
is_six none = false
is_six (some n) = n == 6
