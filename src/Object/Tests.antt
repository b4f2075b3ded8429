-- ===== src/Object/Tests.antt =====
-- Small runs of the counting, and the theorems at inputs that meet their hypotheses.
use libcore.Base.{ℕ, ◌≡◌, refl, arith, false, some, none, [], ◌∷◌}
use libcore.Object.{Heap, object_init, retain, release, destroy, equals, update, address_hash}
use libcore.Object.Counting.{retain_times, release_times, lifetime}

abbrev empty_heap : Heap
empty_heap = record { ref_count = λ _. 0; freed = [] }

-- A finalizer with nothing to release.
abbrev no_finalize : ℕ → Heap → Heap
no_finalize obj h = h

abbrev live : Heap
live = record { ref_count = λ _. 2; freed = [] }

freed_at_last : (release no_finalize (some 7) (object_init 7 empty_heap)).freed ≡ 7 ∷ []
unfolding release object_init
freed_at_last = refl

kept_while_held :
    (release no_finalize (some 7) (retain (some 7) (object_init 7 empty_heap))).freed ≡ []
unfolding release retain object_init
kept_while_held = refl

equals_null : equals (λ _. none) (λ _. none) none (some 3) ≡ false
unfolding equals
equals_null = refl

address_hash_folds : address_hash 0x1_0000_0003 ≡ 2
unfolding address_hash
address_hash_folds = refl

lifetime_example :
    (release_times no_finalize 3 7 (retain_times 3 7 (object_init 7 empty_heap))
      ≡ object_init 7 empty_heap)
    × (release_times no_finalize 4 7 (retain_times 3 7 (object_init 7 empty_heap))
        ≡ destroy no_finalize 7 (record empty_heap { ref_count = update (λ _. 0) 7 0 }))
lifetime_example = lifetime no_finalize 3 7 empty_heap (omega arith)
