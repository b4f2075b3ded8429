-- ===== src/HashMap.antt =====
-- src/hashmap.c: a chained hash map from C strings to retained objects. `self` and `key` are never
-- NULL, and each function is what runs while the map's lock is held. A key is the bytes in front of
-- its NUL; `unsigned int` wraps at 2 ^ 32. The chain of a bucket is a list, its first node in front.
-- The buckets never grow. The size is an `int`: `Invariant` says what keeps it one.
pub mod Chain
pub mod Refine
pub mod Invariant
pub mod Keys
mod Tests
use libcore.Base.{ℕ, zero, suc, ◌+◌, ◌-◌, ◌*◌, ◌%◌, ◌^◌, Bool, true, false, Option, none, some, not}
use libcore.Base.{List, [], ◌∷◌, ◌++◌, ltb, ◌==◌, if◌then◌else◌, get_or, set, replicate, take, ◌&&◌}
use libcore.Base.Int.{ℤ, pos, negsuc}
use libcore.Object.{Ptr, Heap, retain, release}

abbrev pub Key : Type 0
Key = List ℕ

abbrev pub max_key_len : ℕ
max_key_len = 128

pub record HashNode : Type 0 where
  pub key : Key
  pub value : Ptr

pub record HashMap : Type 0 where
  pub buckets : List (List HashNode)
  pub capacity : ℕ
  pub size : ℕ

-- `*str++` is a `char`: a byte above 127 is added as the `int` that it stands for.
abbrev pub char_to_int : ℕ → ℕ
char_to_int c = if ltb c 128 then c else c + (2 ^ 32 - 256)

-- `hash * 33 + c` for each byte.
pub hash_from : ℕ → Key → ℕ
hash_from hash [] = hash
hash_from hash (c ∷ str) = hash_from ((hash * 32 % 2 ^ 32 + hash + char_to_int c) % 2 ^ 32) str

pub hash_str : Key → ℕ
unfolding hash_from
hash_str str = hash_from 5381 str

-- `strncmp(a, b, n) == 0` of two strings without NUL bytes.
pub same_prefix : ℕ → Key → Key → Bool
same_prefix zero a b = true
same_prefix (suc n) [] [] = true
same_prefix (suc n) [] (d ∷ b) = false
same_prefix (suc n) (c ∷ a) [] = false
same_prefix (suc n) (c ∷ a) (d ∷ b) = c == d && same_prefix n a b

abbrev pub same_key : Key → Key → Bool
same_key a b = same_prefix max_key_len a b

-- Both `unsigned` operands: the index is below the capacity.
abbrev pub bucket_of : HashMap → Key → ℕ
bucket_of m key = hash_str key % m.capacity

abbrev pub chain_at : HashMap → ℕ → List HashNode
chain_at m index = get_or m.buckets index []

-- The walk along a chain to the first node whose key compares equal.
pub find_node : Key → List HashNode → Option HashNode
find_node key [] = none
find_node key (node ∷ rest) = if same_key node.key key then some node else find_node key rest

pub set_value : Key → Ptr → List HashNode → List HashNode
set_value key value [] = []
set_value key value (node ∷ rest) =
    if same_key node.key key
    then record node { value = value } ∷ rest
    else node ∷ set_value key value rest

pub unlink : Key → List HashNode → List HashNode
unlink key [] = []
unlink key (node ∷ rest) = if same_key node.key key then rest else node ∷ unlink key rest

pub get : HashMap → Key → Ptr
get m key = elim (find_node key (chain_at m (bucket_of m key))) [ none ↦ none | some n ↦ n.value ]

pub has_key : HashMap → Key → Bool
has_key m key = elim (get m key) [ none ↦ false | some v ↦ true ]

module _ (finalize : ℕ → Heap → Heap) where
  -- The flag says whether both allocations of a new node succeed. A value that is replaced is
  -- released before the new one is retained; a new node goes in front of its chain.
  pub put : Bool → HashMap → Key → Ptr → Heap → HashMap × Heap
  put node_ok m key value h =
      let index = bucket_of m key in
      let chain = chain_at m index in
      elim (find_node key chain) [
        | some node ↦ (
          record m { buckets = set m.buckets index (set_value key value chain) },
          retain value (release finalize node.value h),
        )
        | none ↦
            if node_ok
            then (
              record m {
                buckets = set m.buckets index (record { key = key; value = value } ∷ chain);
                size = m.size + 1;
              },
              retain value h,
            )
            else (m, h)
      ]

  pub remove : HashMap → Key → Heap → HashMap × Heap
  remove m key h =
      let index = bucket_of m key in
      let chain = chain_at m index in
      elim (find_node key chain) [
        | none ↦ (m, h)
        | some node ↦ (
          record m { buckets = set m.buckets index (unlink key chain); size = m.size - 1 },
          release finalize node.value h,
        )
      ]

  release_chain : List HashNode → Heap → Heap
  release_chain [] h = h
  release_chain (node ∷ rest) h = release_chain rest (release finalize node.value h)

  release_buckets : List (List HashNode) → Heap → Heap
  unfolding release_chain
  release_buckets [] h = h
  release_buckets (chain ∷ rest) h = release_buckets rest (release_chain chain h)

  pub clear : HashMap → Heap → HashMap × Heap
  unfolding release_buckets
  clear m h =
      (record m { buckets = replicate m.capacity []; size = 0 }, release_buckets m.buckets h)

-- `detach` hands the value over without a release.
pub detach : HashMap → Key → Ptr × HashMap
detach m key =
    let index = bucket_of m key in
    let chain = chain_at m index in
    elim (find_node key chain) [
      | none ↦ (none, m)
      | some node ↦ (
        node.value,
        record m { buckets = set m.buckets index (unlink key chain); size = m.size - 1 },
      )
    ]

-- Every node, bucket by bucket and front to back: the order of `keys`, `values`, `forEach` and
-- `iterate`.
pub nodes : List (List HashNode) → List HashNode
nodes [] = []
nodes (chain ∷ rest) = chain ++ nodes rest

-- `fn` on each node in that order, until it answers false; the state is what `fn` changes.
pub iterate_nodes {ℓ} : {S : Type ℓ} → (Key → Ptr → S → Bool × S) → List HashNode → S → S
iterate_nodes fn [] s = s
iterate_nodes fn (node ∷ rest) s =
    let (go_on, s') = fn node.key node.value s in
    let later = iterate_nodes fn rest s' in if go_on then later else s'

pub iterate {ℓ} : {S : Type ℓ} → HashMap → (Key → Ptr → S → Bool × S) → S → S
unfolding nodes iterate_nodes
iterate m fn s = iterate_nodes fn (nodes m.buckets) s

pub for_each {ℓ} : {S : Type ℓ} → HashMap → (Key → Ptr → S → S) → S → S
unfolding iterate
for_each m action s = iterate m (λ k v s'. (true, action k v s')) s

pub get_size : HashMap → ℕ
get_size m = m.size

pub is_empty : HashMap → Bool
is_empty m = m.size == 0

first_capacity : ℤ → ℕ
first_capacity (pos n) = if n == 0 then 16 else n
first_capacity (negsuc n) = 16

-- The flags say whether the two allocations succeed.
pub new_hash_map : Bool → Bool → ℤ → Option HashMap
unfolding first_capacity
new_hash_map self_ok buckets_ok initial_capacity =
    let capacity = first_capacity initial_capacity in
    if self_ok && buckets_ok
    then some (record { buckets = replicate capacity []; capacity = capacity; size = 0 })
    else none
