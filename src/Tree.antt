-- ===== src/Tree.antt =====
-- src/tree.c: the binary search tree. A node's `data` may be NULL; a subtree is its root's pointer, and
-- the empty one is NULL. Of the result of `CompareFunc` only the sign is used.
pub mod Sorted
pub mod Height
pub mod Insert
pub mod Remove
pub mod Iterate
pub mod Visit
mod Tests
use Prim.Native.Nat.{Ordering}
use Prim.Native.Nat.Ordering.{lt, eq, gt}
use libcore.Base.{ℕ, zero, suc, ◌+◌, Bool, true, false, Option, none, some, List, [], ◌∷◌, ◌++◌}
use libcore.Base.{ltb, if◌then◌else◌}
use libcore.Object.{Ptr, Heap, retain, release}

abbrev pub max_tree_depth : ℕ
max_tree_depth = 1000

pub data TreeNode : Type 0 where
  null : TreeNode
  node : TreeNode → Ptr → TreeNode → TreeNode

abbrev pub Compare : Type 0
Compare = Ptr → Ptr → Ordering

-- `createNode`; `malloc` gives memory or NULL.
pub create_node : Bool → Ptr → Heap → TreeNode × Heap
create_node malloc item h = if malloc then (node null item null, retain item h) else (null, h)

abbrev pub is_null : TreeNode → Bool
is_null null = true
is_null (node l item r) = false

-- `_findMin`, and the `data` of the node that it finds: the loop goes on from `l` while there is one.
pub least_from : TreeNode → Ptr → Ptr
least_from null item = item
least_from (node l item r) above = least_from l item

pub find_min : TreeNode → Ptr
find_min null = none
find_min (node l item r) = least_from l item

module _ (cmp : Compare) where
  pub insert_rec : Bool → ℕ → TreeNode → Ptr → Heap → TreeNode × Heap
  insert_rec malloc depth null d h =
      if ltb max_tree_depth depth then (null, h) else create_node malloc d h
  insert_rec malloc depth (node l item r) d h = elim (ltb max_tree_depth depth) [
    | true ↦ (node l item r, h)
    | false ↦ elim (cmp d item) [
      | lt ↦ (let (left, h') = insert_rec malloc (suc depth) l d h in (node left item r, h'))
      | gt ↦ (let (right, h') = insert_rec malloc (suc depth) r d h in (node l item right, h'))
      | eq ↦ (node l item r, h)
    ]
  ]

  module _ (finalize : ℕ → Heap → Heap) where
    -- A node whose `data` is the key; one with two children takes the `data` of its successor.
    pub delete_rec : ℕ → TreeNode → Ptr → Heap → TreeNode × Heap
    delete_rec depth null key h = (null, h)
    delete_rec depth (node l item r) key h = elim (ltb max_tree_depth depth) [
      | true ↦ (node l item r, h)
      | false ↦ elim (cmp key item) [
        | lt ↦ (let (left, h') = delete_rec (suc depth) l key h in (node left item r, h'))
        | gt ↦ (let (right, h') = delete_rec (suc depth) r key h in (node l item right, h'))
        | eq ↦ elim (is_null l) [
          | true ↦ (r, release finalize item h)
          | false ↦ elim (is_null r) [
            | true ↦ (l, release finalize item h)
            | false ↦
                (let least = find_min r in
                  let (right, h') =
                    delete_rec (suc depth) r least (release finalize item (retain least h)) in
                  (node l least right, h'))
          ]
        ]
      ]
    ]

-- `_foreachRec`, for a function that acts on a state.
pub foreach_rec {ℓ} : {S : Type ℓ} → (Ptr → S → S) → ℕ → TreeNode → S → S
foreach_rec act depth null s = s
foreach_rec act depth (node l item r) s = elim (ltb max_tree_depth depth) [
  | true ↦ s
  | false ↦ foreach_rec act (suc depth) r (act item (foreach_rec act (suc depth) l s))
]

pub get_height_rec : ℕ → TreeNode → ℕ
get_height_rec depth null = 0
get_height_rec depth (node a item b) =
    let l = get_height_rec (suc depth) a in
    let r = get_height_rec (suc depth) b in
    if ltb max_tree_depth depth then 0 else if ltb r l then l + 1 else r + 1

pub free_nodes_recursive : (ℕ → Heap → Heap) → TreeNode → Heap → Heap
free_nodes_recursive finalize null h = h
free_nodes_recursive finalize (node l item r) h =
    release finalize item (free_nodes_recursive finalize r (free_nodes_recursive finalize l h))

-- `impl_clear`, which is the finalizer as well.
pub clear : (ℕ → Heap → Heap) → TreeNode → Heap → TreeNode × Heap
clear finalize root h = (null, free_nodes_recursive finalize root h)

-- The methods on a tree's root.
pub insert : Compare → Bool → TreeNode → Ptr → Heap → TreeNode × Heap
insert cmp malloc root d h = insert_rec cmp malloc 0 root d h

pub remove : Compare → (ℕ → Heap → Heap) → TreeNode → Ptr → Heap → TreeNode × Heap
remove cmp finalize root key h = delete_rec cmp finalize 0 root key h

pub foreach {ℓ} : {S : Type ℓ} → TreeNode → (Ptr → S → S) → S → S
foreach root act s = foreach_rec act 0 root s

pub get_height : TreeNode → ℕ
get_height t = get_height_rec 0 t

-- The iterator's `stack` of nodes, the top first, and `current`.
pub record TreeIterator : Type 0 where
  pub stack : List TreeNode
  pub current : TreeNode

pub new_iterator : TreeNode → TreeIterator
new_iterator root = record { stack = []; current = root }

pub has_next : TreeIterator → Bool
has_next it = elim it.current [
  | node l item r ↦ true
  | null ↦ elim it.stack [ [] ↦ false | n ∷ ns ↦ true ]
]

-- `push`, whose `malloc` may fail for the stack that there is.
pub push : (List TreeNode → Bool) → TreeNode → List TreeNode → List TreeNode
push malloc n stack = if malloc stack then n ∷ stack else stack

-- The loop of `iter_next`: down the left branch.
pub push_left : (List TreeNode → Bool) → TreeNode → List TreeNode → List TreeNode
push_left malloc null stack = stack
push_left malloc (node l item r) stack = push_left malloc l (push malloc (node l item r) stack)

pub take_top : List TreeNode → Ptr × TreeIterator
take_top [] = (none, record { stack = []; current = null })
take_top (null ∷ ns) = (none, record { stack = ns; current = null })
take_top (node l item r ∷ ns) = (item, record { stack = ns; current = r })

pub iter_next : (List TreeNode → Bool) → TreeIterator → Ptr × TreeIterator
iter_next malloc it = take_top (push_left malloc it.current it.stack)

-- `impl_traverseBFS`: the objects that it prints, in order, for the nodes in the queue, where `enqueue`
-- has its memory. The rounds of the loop are `fuel` at most.
pub enqueue : List TreeNode → TreeNode → List TreeNode
enqueue queue null = queue
enqueue queue (node l item r) = queue ++ node l item r ∷ []

pub bfs_from : ℕ → List TreeNode → List ℕ
bfs_from fuel [] = []
bfs_from zero (n ∷ queue) = []
bfs_from (suc fuel) (null ∷ queue) = bfs_from fuel queue
bfs_from (suc fuel) (node l item r ∷ queue) =
    let rest = bfs_from fuel (enqueue (enqueue queue l) r) in
    elim item [ none ↦ rest | some obj ↦ obj ∷ rest ]

pub count_nodes : TreeNode → ℕ
count_nodes null = 0
count_nodes (node l item r) = suc (count_nodes l + count_nodes r)

pub traverse_bfs : TreeNode → List ℕ
traverse_bfs root = bfs_from (count_nodes root) (enqueue [] root)
