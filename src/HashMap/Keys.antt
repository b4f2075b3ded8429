-- ===== src/HashMap/Keys.antt =====
-- Keys of at most 128 bytes behave as themselves: one key, one value.
use libcore.Base.{ℕ, ◌≤◌, ◌≡◌, ◌≢◌, refl, arith, Bool, true, List, [], ◌∷◌}
use libcore.Base.{length, ==_refl, Bool-cases, inl, inr, sym}
use libcore.Object.{Ptr, Heap}
use libcore.HashMap.{
  Key, HashMap, HashNode, get, put, bucket_of, same_key, for_each, nodes, iterate, iterate_nodes,
}
use libcore.HashMap.Chain.{same_prefix_refl, eq_of_same_prefix}
use libcore.HashMap.Refine.{IsValid, get-put}

-- A key reads the value that was just put under it.
pub get-put_self :
    (finalize : ℕ → Heap → Heap) {m : HashMap} (k : Key) (x : Ptr) (h : Heap)
    → IsValid m
    → get (put finalize true m k x h).0 k ≡ x
get-put_self finalize {m} k x h v =
    ground (arith, get-put finalize true k k x h v, same_prefix_refl 128 k, ==_refl (bucket_of m k))

-- Two different keys of at most 128 bytes never disturb one another.
pub get-put_other :
    (finalize : ℕ → Heap → Heap) (node_ok : Bool) {m : HashMap} (k q : Key) (x : Ptr) (h : Heap)
    → IsValid m
    → length k ≤ 128
    → length q ≤ 128
    → k ≢ q
    → get (put finalize node_ok m k x h).0 q ≡ get m q
get-put_other finalize node_ok {m} k q x h v hk hq apart = elim (Bool-cases (same_key k q)) [
  | inl same ↦ absurd (apart (eq_of_same_prefix 128 k q hk hq same))
  | inr other ↦ ground (arith, get-put finalize node_ok k q x h v)
]

-- The state after `action` on each node in turn.
pub act_on {ℓ} : {S : Type ℓ} → (Key → Ptr → S → S) → List HashNode → S → S
act_on action [] s = s
act_on action (n ∷ ns) s = act_on action ns (action n.key n.value s)

iterate_nodes-act_on {ℓ} :
    {S : Type ℓ} (action : Key → Ptr → S → S) (ns : List HashNode) (s : S)
    → iterate_nodes (λ k v t. (true, action k v t)) ns s ≡ act_on action ns s
unfolding iterate_nodes act_on
iterate_nodes-act_on action [] s = refl
iterate_nodes-act_on action (n ∷ ns) s = iterate_nodes-act_on action ns (action n.key n.value s)

-- `forEach` acts once on each node of the map, bucket by bucket, and on as many nodes as the map's
-- size says.
pub for_each_all {ℓ} :
    {S : Type ℓ} {m : HashMap} (action : Key → Ptr → S → S) (s : S)
    → IsValid m
    → (for_each m action s ≡ act_on action (nodes m.buckets) s)
      × (length (nodes m.buckets) ≡ m.size)
unfolding for_each iterate
for_each_all {m} action s v = (iterate_nodes-act_on action (nodes m.buckets) s, sym v.counted)
