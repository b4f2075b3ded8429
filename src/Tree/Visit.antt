-- ===== src/Tree/Visit.antt =====
-- src/tree.c: the level order and `clear`, by how often a tree holds an object.
use libcore.Base.{
  ℕ, zero, suc, ◌+◌, ◌^◌, ◌<◌, ◌≤◌, Bool, ◌==◌, ◌&&◌, ltb, if◌then◌else◌, Bool-cases, inl, inr,
  List, [], ◌∷◌, ◌++◌, none, some, ◌≡◌, refl, ◌∙◌, arith,
}
use libcore.Base.Tally.{tally, one_if_same}
use libcore.Object.{Ptr, Heap, release, destroy}
use libcore.Tree.{
  TreeNode, null, node, enqueue, bfs_from, count_nodes, traverse_bfs, free_nodes_recursive, clear,
}
use libcore.Tree.Sorted.{elements}
use libcore.Tree.Iterate.{AllNodes}

-- How often an object stands in a sequence of pointers.
unfoldable pub holds : ℕ → List Ptr → ℕ
holds o [] = 0
holds o (none ∷ xs) = holds o xs
holds o (some x ∷ xs) = one_if_same x o + holds o xs

holds-append : (o : ℕ) (xs ys : List Ptr) → holds o (xs ++ ys) ≡ holds o xs + holds o ys
unfolding holds
holds-append o [] ys = omega arith
holds-append o (none ∷ xs) ys = holds-append o xs ys
holds-append o (some x ∷ xs) ys = omega (arith, holds-append o xs ys)

-- How often it stands in the trees of a queue, and the nodes that these have.
queue_holds : ℕ → List TreeNode → ℕ
queue_holds o [] = 0
queue_holds o (t ∷ ts) = holds o (elements t) + queue_holds o ts

queue_nodes : List TreeNode → ℕ
queue_nodes [] = 0
queue_nodes (t ∷ ts) = count_nodes t + queue_nodes ts

queue_holds-enqueue :
    (o : ℕ) (queue : List TreeNode) (t : TreeNode)
    → (queue_holds o (enqueue queue t) ≡ queue_holds o queue + holds o (elements t))
      × (queue_nodes (enqueue queue t) ≡ queue_nodes queue + count_nodes t)
unfolding queue_holds queue_nodes enqueue elements holds count_nodes
queue_holds-enqueue o [] null = (omega arith, omega arith)
queue_holds-enqueue o (q ∷ queue) null = (omega arith, omega arith)
queue_holds-enqueue o [] (node l d r) = (omega arith, omega arith)
queue_holds-enqueue o (q ∷ queue) (node l d r) =
    let (a, b) = queue_holds-enqueue o queue (node l d r) in (omega arith, omega arith)

holds-node :
    (o : ℕ) (l r : TreeNode) (d : Ptr)
    → holds o (elements (node l d r))
      ≡ holds o (elements l) + holds o (d ∷ []) + holds o (elements r)
unfolding elements holds
holds-node o l r none = omega (arith, holds-append o (elements l) (none ∷ elements r))
holds-node o l r (some x) = omega (arith, holds-append o (elements l) (some x ∷ elements r))

AllNodes-enqueue :
    (queue : List TreeNode) (t : TreeNode) → AllNodes queue → AllNodes (enqueue queue t)
unfolding AllNodes enqueue
AllNodes-enqueue queue null a = a
AllNodes-enqueue [] (node l d r) a = tt
AllNodes-enqueue (null ∷ queue) (node l d r) a = absurd a
AllNodes-enqueue (node a x b ∷ queue) (node l d r) h = AllNodes-enqueue queue (node l d r) h

bfs_from-holds :
    (o fuel : ℕ) (queue : List TreeNode)
    → AllNodes queue
    → queue_nodes queue ≤ fuel
    → tally o (bfs_from fuel queue) ≡ queue_holds o queue
unfolding bfs_from queue_holds queue_nodes tally count_nodes elements holds AllNodes
bfs_from-holds o fuel [] a h = refl
bfs_from-holds o zero (null ∷ queue) a h = absurd a
bfs_from-holds o zero (node l d r ∷ queue) a h = absurd (omega arith)
bfs_from-holds o (suc fuel) (null ∷ queue) a h = absurd a
bfs_from-holds o (suc fuel) (node l none r ∷ queue) a h =
    let (f, g) = queue_holds-enqueue o queue l in
    let (c, e) = queue_holds-enqueue o (enqueue queue l) r in
    let n = holds-node o l r none in
    let nodes = AllNodes-enqueue (enqueue queue l) r (AllNodes-enqueue queue l a) in
    let rest = bfs_from-holds o fuel (enqueue (enqueue queue l) r) nodes (omega arith) in
    omega arith
bfs_from-holds o (suc fuel) (node l (some x) r ∷ queue) a h =
    let (f, g) = queue_holds-enqueue o queue l in
    let (c, e) = queue_holds-enqueue o (enqueue queue l) r in
    let n = holds-node o l r (some x) in
    let nodes = AllNodes-enqueue (enqueue queue l) r (AllNodes-enqueue queue l a) in
    let rest = bfs_from-holds o fuel (enqueue (enqueue queue l) r) nodes (omega arith) in
    omega arith

-- The level order of a tree prints each object as often as the tree holds it, in as many rounds of the
-- loop as the tree has nodes.
pub traverse_bfs-holds :
    (o : ℕ) (root : TreeNode) → tally o (traverse_bfs root) ≡ holds o (elements root)
unfolding traverse_bfs queue_holds queue_nodes AllNodes
traverse_bfs-holds o root =
    let (a, b) = queue_holds-enqueue o [] root in
    bfs_from-holds o (count_nodes root) (enqueue [] root) (AllNodes-enqueue [] root tt)
      (omega arith)
    ∙ omega arith

-- Whether so many are the last holders of an object.
unfoldable pub is_last : ℕ → ℕ → Bool
is_last back count = ltb 0 back && back == count

-- The counts after so many were given back, and the objects freed, each of which had no other holder.
pub GivesBack : (ℕ → ℕ) → Heap → Heap → Type 0
GivesBack back h k =
    (o : ℕ)
    → (k.ref_count o + back o ≡ h.ref_count o)
      × (tally o k.freed ≡ tally o h.freed + (if is_last (back o) (h.ref_count o) then 1 else 0))

-- Every object has a count of at least as many as it is held so.
unfoldable pub IsCounted : (ℕ → ℕ) → Heap → Type 0
IsCounted back h = (o : ℕ) → 0 < back o → (back o ≤ h.ref_count o) × (h.ref_count o < 2 ^ 32)

module _ (finalize : ℕ → Heap → Heap) (quiet : (o : ℕ) (h : Heap) → finalize o h ≡ h) where
  release-GivesBack :
      (d : Ptr) (h : Heap)
      → IsCounted (λ o. holds o (d ∷ [])) h
      → GivesBack (λ o. holds o (d ∷ [])) h (release finalize d h)
  unfolding GivesBack IsCounted release destroy holds is_last tally
  release-GivesBack none h s o = (omega arith, omega arith)
  release-GivesBack (some x) h s o =
      let at : (1 ≤ h.ref_count x) × (h.ref_count x < 2 ^ 32) = ground (arith, s x) in
      elim (Bool-cases (h.ref_count x == 1)) [
        | inl e ↦
            simp (e, quiet)
              (elim (Bool-cases (o == x)) [
                | inl f ↦ (ground arith, ground arith)
                | inr f ↦ (ground arith, ground arith)
              ])
        | inr e ↦ simp (e) (elim (Bool-cases (o == x)) [
          | inl f ↦ (ground arith, ground arith)
          | inr f ↦ (ground arith, ground arith)
        ])
      ]

  free_nodes-GivesBack :
      (t : TreeNode) (h : Heap)
      → IsCounted (λ o. holds o (elements t)) h
      → GivesBack (λ o. holds o (elements t)) h (free_nodes_recursive finalize t h)
  unfolding GivesBack IsCounted free_nodes_recursive holds elements is_last
  free_nodes-GivesBack null h s o = (omega arith, omega arith)
  free_nodes-GivesBack (node l d r) h s o =
      let h1 = free_nodes_recursive finalize l h in
      let h2 = free_nodes_recursive finalize r h1 in
      let a =
        free_nodes-GivesBack l h
          (λ o p. (let c = s o in let n = holds-node o l r d in ground arith)) in
      let b =
        free_nodes-GivesBack r h1
          (λ o p. (let c = s o in let n = holds-node o l r d in let q = a o in ground arith)) in
      let c = release-GivesBack d h2 (λ o p.
        (let c = s o in
          let n = holds-node o l r d in let q = a o in let q2 = b o in ground arith)) in
      let n = holds-node o l r d in
      let x = a o in let y = b o in let z = c o in let w = s o in (omega arith, ground arith)

  -- Clearing a tree, each of whose values has a count below 2^32 of at least as many as the tree holds it, and a
  -- `finalize` that releases nothing itself, gives back one count for every time that the tree holds a value,
  -- and frees exactly those that have no other holder, each once.
  pub clear-GivesBack :
      (root : TreeNode) (h : Heap)
      → IsCounted (λ o. holds o (elements root)) h
      → GivesBack (λ o. holds o (elements root)) h (clear finalize root h).1
  unfolding clear
  clear-GivesBack root h s = free_nodes-GivesBack root h s
