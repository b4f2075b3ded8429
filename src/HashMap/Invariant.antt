-- ===== src/HashMap/Invariant.antt =====
-- Every operation keeps the map's invariant, and changes the counts of the values concerned only.
use libcore.Base.{
  ℕ, zero, suc, ◌+◌, ◌-◌, ◌≤◌, ◌<◌, ◌≡◌, refl, sym, arith, ap, ◌∙◌, Bool, true, false,
}
use libcore.Base.{◌||◌, ◌&&◌, not, ◌^◌, none, some, List, [], ◌∷◌, inl, inr, if◌then◌else◌}
use libcore.Base.{
  length, get_or, set, get_or-set, length-set, length-append, Option-cases, Bool-cases, replicate,
}
use libcore.Base.{length-replicate, ==_refl}
use mathlib.Core.Path.{subst}
use mathlib.Core.Option.{some-injective}
use libcore.Base.Int.{ℤ, pos, negsuc}
use libcore.Object.{Ptr, Heap, retain, release, destroy, update}
use libcore.Object.Counting.{release_last}
use libcore.HashMap.{
  Key, HashNode, HashMap, bucket_of, chain_at, find_node, set_value, unlink, get, put, remove,
  detach, clear, nodes, new_hash_map, first_capacity,
}
use libcore.HashMap.Chain.{
  count, count_none, count-same, count-set_value, count-unlink, length-set_value, length-unlink,
  same_prefix_refl,
}
use libcore.HashMap.Refine.{IsValid, found, bucket_in, get-put}

length-nodes-set :
    (bs : List (List HashNode)) (i : ℕ) (c : List HashNode)
    → i < length bs
    → length (nodes (set bs i c)) + length (get_or bs i []) ≡ length (nodes bs) + length c
unfolding nodes
length-nodes-set [] i c h = absurd (omega arith)
length-nodes-set (b ∷ bs) zero c h =
    omega (arith, length-append c (nodes bs), length-append b (nodes bs))
length-nodes-set (b ∷ bs) (suc i) c h = omega (
  arith,
  length-nodes-set bs i c (omega arith),
  length-append b (nodes (set bs i c)),
  length-append b (nodes bs),
)

length-nodes_empty : (n : ℕ) → length (nodes (replicate n [])) ≡ 0
unfolding nodes
length-nodes_empty zero = refl
length-nodes_empty (suc n) = length-nodes_empty n

abbrev none_of : List HashNode
none_of = []

get_or-replicate_empty : (n i : ℕ) → get_or (replicate n []) i [] ≡ none_of
get_or-replicate_empty zero i = refl
get_or-replicate_empty (suc n) zero = refl
get_or-replicate_empty (suc n) (suc i) = get_or-replicate_empty n i

unique_empty : (n : ℕ) (q : Key) (i : ℕ) → count q (get_or (replicate n []) i []) ≤ 1
unfolding count
unique_empty n q i = rw (get_or-replicate_empty n i) (omega arith)

-- Replacing one chain by one that counts no key twice keeps the buckets so.
unique-set :
    {m : HashMap} (i : ℕ) (c : List HashNode)
    → IsValid m
    → i < length m.buckets
    → ((q : Key) → count q c ≤ 1)
    → (q : Key) (j : ℕ) → count q (get_or (set m.buckets i c) j []) ≤ 1
unique-set {m} i c v h once q j =
    rw (get_or-set m.buckets i j c [] h) (ground (arith, once q, v.unique q j))

-- A map whose chain for the key `k` is replaced, with the new size.
abbrev rewired : HashMap → Key → List HashNode → ℕ → HashMap
rewired m k c n = record m { buckets = set m.buckets (bucket_of m k) c; size = n }

rewired-IsValid :
    {m : HashMap} (k : Key) (c : List HashNode) (n : ℕ)
    → IsValid m
    → ((q : Key) → count q c ≤ 1)
    → n + length (chain_at m (bucket_of m k)) ≡ m.size + length c
    → IsValid (rewired m k c n)
rewired-IsValid {m} k c n v once size = record {
  width = length-set m.buckets (bucket_of m k) c ∙ v.width;
  some_room = v.some_room;
  unique = unique-set (bucket_of m k) c v (bucket_in k v) once;
  counted = omega (arith, length-nodes-set m.buckets (bucket_of m k) c (bucket_in k v), v.counted);
}

unique-cons :
    (k q : Key) (x : Ptr) (chain : List HashNode)
    → find_node k chain ≡ none
    → count q chain ≤ 1
    → count q (record { key = k; value = x } ∷ chain) ≤ 1
unfolding count
unique-cons k q x chain absent once =
    ground (arith, count_none k chain absent, count-same k q chain)

put_kept :
    (finalize : ℕ → Heap → Heap) (node_ok : Bool) {m : HashMap} (k : Key) (x : Ptr) (h : Heap)
    → IsValid m
    → IsValid (put finalize node_ok m k x h).0
unfolding put
put_kept finalize node_ok {m} k x h v =
    let chain = chain_at m (bucket_of m k) in
    let once = λ (q : Key). v.unique q (bucket_of m k) in
    elim (Option-cases (find_node k chain)) [
      | inr (node, present) ↦
          rw (present, put)
            (rewired-IsValid k (set_value k x chain) m.size v
              (λ q. rw (count-set_value k q x chain) (once q))
              (omega (arith, length-set_value k x chain)))
      | inl absent ↦
          rw (absent, put)
            (elim (Bool-cases node_ok) [
              | inl made ↦ rw made (
                  rewired-IsValid k (record { key = k; value = x } ∷ chain) (m.size + 1) v
                    (λ q. unique-cons k q x chain absent (once q)) (omega arith))
              | inr failed ↦ rw failed v
            ])
    ]

put-size :
    (finalize : ℕ → Heap → Heap) (node_ok : Bool) (m : HashMap) (k : Key) (x : Ptr) (h : Heap)
    → (put finalize node_ok m k x h).0.size
      ≡ (if not (found m k) && node_ok then m.size + 1 else m.size)
unfolding put
put-size finalize node_ok m k x h = ground arith

-- Where the size can grow by one within an `int`, `put` keeps the invariant, whether or not a new node can
-- be made, and the size is an `int` that grew by one exactly where a node was made for a new key.
pub put-IsValid :
    (finalize : ℕ → Heap → Heap) (node_ok : Bool) {m : HashMap} (k : Key) (x : Ptr) (h : Heap)
    → IsValid m
    → m.size + 1 < 2 ^ 31
    → IsValid (put finalize node_ok m k x h).0
      × ((put finalize node_ok m k x h).0.size < 2 ^ 31)
      × ((put finalize node_ok m k x h).0.size
          ≡ (if not (found m k) && node_ok then m.size + 1 else m.size))
put-IsValid finalize node_ok {m} k x h v small =
    let n = put-size finalize node_ok m k x h in
    (put_kept finalize node_ok k x h v, ground arith, n)

chain-le-nodes : (bs : List (List HashNode)) (i : ℕ) → length (get_or bs i []) ≤ length (nodes bs)
unfolding nodes
chain-le-nodes [] i = omega arith
chain-le-nodes (b ∷ bs) zero = omega (arith, length-append b (nodes bs))
chain-le-nodes (b ∷ bs) (suc i) = omega (arith, chain-le-nodes bs i, length-append b (nodes bs))

-- `detach` and `remove` keep the invariant.
pub detach-IsValid : {m : HashMap} (k : Key) → IsValid m → IsValid (detach m k).1
unfolding detach
detach-IsValid {m} k v =
    let chain = chain_at m (bucket_of m k) in
    elim (Option-cases (find_node k chain)) [
      | inl absent ↦ rw (absent, detach) v
      | inr (node, present) ↦
          rw (present, detach)
            (rewired-IsValid k (unlink k chain) (m.size - 1) v
              (λ q. omega (arith, count-unlink k q chain, v.unique q (bucket_of m k)))
              (omega (
                arith,
                length-unlink k chain node present,
                chain-le-nodes m.buckets (bucket_of m k),
                v.counted,
              )))
    ]

-- `remove` leaves the map that `detach` leaves, and releases the value that `detach` hands over.
pub remove-detach :
    (finalize : ℕ → Heap → Heap) (m : HashMap) (k : Key) (h : Heap)
    → remove finalize m k h ≡ ((detach m k).1, release finalize (detach m k).0 h)
unfolding remove detach release
remove-detach finalize m k h = ground arith

-- `put` releases the value that the key had and retains the new one; where no node can be made the
-- counts stay.
pub put_counts :
    (finalize : ℕ → Heap → Heap) (node_ok : Bool) (m : HashMap) (k : Key) (x : Ptr) (h : Heap)
    → (put finalize node_ok m k x h).1
      ≡ (if found m k || node_ok then retain x (release finalize (get m k) h) else h)
unfolding put get release
put_counts finalize node_ok m k x h = ground arith

found_of_get : (m : HashMap) (k : Key) {obj : ℕ} → get m k ≡ some obj → found m k ≡ true
unfolding get
found_of_get m k has = ground arith

-- Putting the object that a key already has, where the map is its only holder, frees the object and
-- leaves the map holding it.
pub put_same_freed :
    (finalize : ℕ → Heap → Heap) (node_ok : Bool) {m : HashMap} (k : Key) (obj : ℕ) (h : Heap)
    → IsValid m
    → get m k ≡ some obj
    → h.ref_count obj ≡ 1
    → (get (put finalize node_ok m k (some obj) h).0 k ≡ some obj)
      × ((put finalize node_ok m k (some obj) h).1.freed
          ≡ obj ∷ (finalize obj (record h { ref_count = update h.ref_count obj 0 })).freed)
unfolding retain destroy
put_same_freed finalize node_ok {m} k obj h v has one =
    let here = found_of_get m k has in
    (
      ground (
        arith,
        get-put finalize node_ok k k (some obj) h v,
        same_prefix_refl 128 k,
        ==_refl (bucket_of m k),
      ),
      rw (put_counts finalize node_ok m k (some obj) h, here, has)
          (ap (λ (g : Heap). g.freed) (release_last finalize obj h one)),
    )

-- A new map is valid, and so is a cleared one; both give NULL for every key.
pub clear-IsValid :
    (finalize : ℕ → Heap → Heap) {m : HashMap} (h : Heap)
    → IsValid m
    → IsValid (clear finalize m h).0 × ((q : Key) → get (clear finalize m h).0 q ≡ none)
unfolding clear get find_node
clear-IsValid finalize {m} h v = (
  record {
    width = length-replicate m.capacity [];
    some_room = v.some_room;
    unique = unique_empty m.capacity;
    counted = sym (length-nodes_empty m.capacity);
  },
  λ q. rw (get_or-replicate_empty m.capacity (bucket_of m q), get),
)

abbrev empty_map : ℕ → HashMap
empty_map n = record { buckets = replicate n []; capacity = n; size = 0 }

empty_map-IsValid : (n : ℕ) → 0 < n → IsValid (empty_map n)
empty_map-IsValid n h = record {
  width = length-replicate n [];
  some_room = h;
  unique = unique_empty n;
  counted = sym (length-nodes_empty n);
}

first_capacity_pos : (c : ℤ) → 0 < first_capacity c
unfolding first_capacity
first_capacity_pos (pos n) = ground arith
first_capacity_pos (negsuc n) = omega arith

pub new_hash_map-IsValid :
    (self_ok buckets_ok : Bool) (initial_capacity : ℤ) (m : HashMap)
    → new_hash_map self_ok buckets_ok initial_capacity ≡ some m
    → IsValid m
unfolding new_hash_map
new_hash_map-IsValid true true c m made =
    subst IsValid (some-injective _ _ made)
      (empty_map-IsValid (first_capacity c) (first_capacity_pos c))
new_hash_map-IsValid true false c m made = cc
new_hash_map-IsValid false buckets_ok c m made = cc
