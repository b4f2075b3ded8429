-- ===== src/HashMap/Tests.antt =====
-- A map of two buckets, and the theorems at it.
use libcore.Base.{ℕ, ◌≡◌, ◌≢◌, ◌<◌, ◌^◌, ◌&&◌, not, if◌then◌else◌, refl, arith, true, some, [], ◌∷◌}
use libcore.Base.Int.{pos}
use libcore.Object.{Heap}
use libcore.HashMap.{Key, HashMap, hash_str, get, put, new_hash_map, find_node, same_prefix}
use libcore.HashMap.Refine.{found, IsValid, get-put}
use libcore.HashMap.Invariant.{put-IsValid, new_hash_map-IsValid, put_same_freed}

abbrev a_key : Key
a_key = b'a' ∷ []

abbrev b_key : Key
b_key = b'b' ∷ []

keys_apart : b_key ≢ a_key
keys_apart e = ground arith

abbrev heap : Heap
heap = record { ref_count = λ _. 1; freed = [] }

abbrev no_finalize : ℕ → Heap → Heap
no_finalize obj h = h

abbrev empty : HashMap
empty = record { buckets = [] ∷ [] ∷ []; capacity = 2; size = 0 }

empty_made : new_hash_map true true (pos 2) ≡ some empty
unfolding new_hash_map
empty_made = refl

hash_abc : hash_str (b'a' ∷ b'b' ∷ b'c' ∷ []) ≡ 193485963
unfolding hash_str
hash_abc = refl

empty-IsValid : IsValid empty
empty-IsValid = new_hash_map-IsValid true true (pos 2) empty empty_made

abbrev one : HashMap
one = (put no_finalize true empty a_key (some 5) heap).0

put-IsValid_example :
    IsValid (put no_finalize true empty a_key (some 5) heap).0
    × ((put no_finalize true empty a_key (some 5) heap).0.size < 2 ^ 31)
    × ((put no_finalize true empty a_key (some 5) heap).0.size
        ≡ (if not (found empty a_key) && true then 1 else 0))
put-IsValid_example = put-IsValid no_finalize true a_key (some 5) heap empty-IsValid (omega arith)

one-IsValid : IsValid one
one-IsValid = (put-IsValid no_finalize true a_key (some 5) heap empty-IsValid (omega arith)).0

get-put_example : get (put no_finalize true one b_key (some 6) heap).0 a_key ≡ some 5
unfolding put get find_node same_prefix hash_str
get-put_example = get-put no_finalize true b_key a_key (some 6) heap one-IsValid

put_same_freed_example :
    (get (put no_finalize true one a_key (some 5) heap).0 a_key ≡ some 5)
    × ((put no_finalize true one a_key (some 5) heap).1.freed ≡ 5 ∷ [])
unfolding put get find_node same_prefix hash_str
put_same_freed_example = put_same_freed no_finalize true a_key 5 heap one-IsValid refl refl
