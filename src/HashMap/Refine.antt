-- ===== src/HashMap/Refine.antt =====
-- The hash map refines a function from keys to values. Two keys name one entry if they fall into one
-- bucket and agree on their first 128 bytes.
use libcore.Base.{ℕ, ◌≤◌, ◌<◌, ◌≡◌, arith}
use libcore.Base.{Bool, true, false, ◌&&◌, ◌||◌, Option, none, some, [], ◌∷◌, inl, inr}
use libcore.Base.{◌==◌, if◌then◌else◌, length, get_or, get_or-set}
use libcore.Base.{Option-cases}
use libcore.Object.{Ptr, Heap}
use libcore.HashMap.{
  Key, HashNode, HashMap, same_key, bucket_of, chain_at, find_node, set_value, unlink, get, put,
  detach, nodes,
}
use libcore.HashMap.Chain.{
  value_of, count, count_none, find_none, count-same, find-set_value, find-unlink,
}

pub record IsValid (m : HashMap) : Type 0 where
  pub width : length m.buckets ≡ m.capacity
  pub some_room : 0 < m.capacity
  pub unique : (q : Key) (i : ℕ) → count q (get_or m.buckets i []) ≤ 1
  pub counted : m.size ≡ length (nodes m.buckets)

abbrev pub same_entry : HashMap → Key → Key → Bool
same_entry m k q = bucket_of m k == bucket_of m q && same_key k q

abbrev pub is_found : Option HashNode → Bool
is_found none = false
is_found (some n) = true

-- There is a node for the key.
abbrev pub found : HashMap → Key → Bool
found m k = is_found (find_node k (chain_at m (bucket_of m k)))

get-value_of :
    (m : HashMap) (q : Key) → get m q ≡ value_of (find_node q (chain_at m (bucket_of m q)))
unfolding get value_of
get-value_of m q = ground arith

pub bucket_in : {m : HashMap} (k : Key) → IsValid m → bucket_of m k < length m.buckets
bucket_in {m} k v = omega (arith, v.width)

-- After `put`, the keys of the entry read the value, and all others read what they did; where the
-- key had no node and none can be made, nothing changes.
pub get-put :
    (finalize : ℕ → Heap → Heap) (node_ok : Bool) {m : HashMap} (k q : Key) (x : Ptr) (h : Heap)
    → IsValid m
    → get (put finalize node_ok m k x h).0 q
      ≡ (if (found m k || node_ok) && same_entry m k q then x else get m q)
unfolding get put find_node value_of
get-put finalize node_ok {m} k q x h v =
    let i = bucket_of m k in
    let j = bucket_of m q in
    let chain = chain_at m i in
    elim (Option-cases (find_node k chain)) [
      | inl absent ↦ ground (
        arith,
        bucket_in k v,
        get_or-set m.buckets i j (record { key = k; value = x } ∷ chain) [],
      )
      | inr (node, present) ↦ ground (
        arith,
        bucket_in k v,
        get_or-set m.buckets i j (set_value k x chain) [],
        find-set_value k q x chain node,
      )
    ]

-- After `remove` or `detach`, the keys of the entry read NULL, and all others read what they did.
-- `detach` hands over the value that the key had.
pub get-detach :
    {m : HashMap} (k q : Key)
    → IsValid m
    → (get (detach m k).1 q ≡ (if same_entry m k q then none else get m q))
      × ((detach m k).0 ≡ get m k)
unfolding get detach value_of
get-detach {m} k q v =
    let i = bucket_of m k in
    let j = bucket_of m q in
    let chain = chain_at m i in
    ground (
      arith,
      bucket_in k v,
      v.unique q i,
      count_none k chain,
      count-same k q chain,
      find_none q chain,
      get_or-set m.buckets i j (unlink k chain) [],
      find-unlink k q chain,
    )
