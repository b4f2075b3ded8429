-- ===== src/Tree/Remove.antt =====
-- src/tree.c: what a removal does to the sequence.
use Prim.Native.Nat.Ordering.{lt, eq, gt}
use libcore.Base.{
  ℕ, suc, ◌+◌, ◌≤◌, true, false, List, [], ◌∷◌, ◌++◌, append-nil, append_assoc, ◌≡◌, refl, sym, ap,
  ◌∙◌,
}
use libcore.Base.{inl, inr, arith, Bool-cases, ltb, if◌then◌else◌}
use libcore.Object.{Ptr, Heap, retain, release}
use libcore.Tree.{
  TreeNode, null, node, is_null, Compare, max_tree_depth, delete_rec, remove, find_min, least_from,
}
use libcore.Tree.Sorted.{
  IsOrder, elements, Ordering-cases, remove_sorted, IsSorted, remove_sorted-at,
}
use libcore.Tree.Sorted.{
  remove_sorted-left, remove_sorted-right, remove_sorted-IsSorted, IsSorted-before, IsSorted-parts,
}
use libcore.Tree.Height.{levels}
use libcore.Tree.Insert.{IsSearchTree}

least_from-elements :
    (l : TreeNode) (d : Ptr) (ys : List Ptr)
    → (rest : List Ptr) × (elements l ++ d ∷ ys ≡ least_from l d ∷ rest)
unfolding elements least_from
least_from-elements null d ys = (ys, refl)
least_from-elements (node a x b) d ys =
    let (rest, e) = least_from-elements a x (elements b ++ d ∷ ys) in
    (rest, append_assoc (elements a) (x ∷ elements b) (d ∷ ys) ∙ e)

-- `find_min` finds the first value of the sequence.
find_min-elements :
    (t : TreeNode) → is_null t ≡ false → (rest : List Ptr) × (elements t ≡ find_min t ∷ rest)
unfolding elements find_min
find_min-elements null h = absurd cc
find_min-elements (node l d r) h = least_from-elements l d (elements r)

null_elements : (t : TreeNode) → is_null t ≡ true → elements t ≡ []
unfolding elements
null_elements null h = refl
null_elements (node l d r) h = absurd cc

module _ (cmp : Compare) (finalize : ℕ → Heap → Heap) where
  -- What becomes of the node of the key, where `u` is its right subtree without the least value.
  at_key : TreeNode → TreeNode → Ptr → Heap → TreeNode × Heap → TreeNode × Heap
  at_key l r d h u =
      if is_null l
      then (r, release finalize d h)
      else if is_null r
      then (l, release finalize d h)
      else (node l (find_min r) u.0, u.1)

  -- A node of the search.
  module _ (depth : ℕ) (l r : TreeNode) (q d : Ptr) (h : Heap)
      (k : ltb max_tree_depth depth ≡ false) where
    delete_rec-lt :
        cmp q d ≡ lt
        → delete_rec cmp finalize depth (node l d r) q h
          ≡ ((let (a, h') = delete_rec cmp finalize (suc depth) l q h in (node a d r, h')))
    unfolding delete_rec
    delete_rec-lt e = ground arith

    delete_rec-gt :
        cmp q d ≡ gt
        → delete_rec cmp finalize depth (node l d r) q h
          ≡ ((let (b, h') = delete_rec cmp finalize (suc depth) r q h in (node l d b, h')))
    unfolding delete_rec
    delete_rec-gt e = ground arith

    delete_rec-eq :
        cmp q d ≡ eq
        → delete_rec cmp finalize depth (node l d r) q h
          ≡ at_key l r d h (
              delete_rec cmp finalize
                (suc depth)
                r
                (find_min r)
                (release finalize d (retain (find_min r) h)))
    unfolding delete_rec at_key
    delete_rec-eq e = ground arith

  module _ (order : IsOrder cmp) where
    delete-here :
        (a b : TreeNode) (q d : Ptr) (h : Heap) (u : TreeNode × Heap)
        → elements u.0 ≡ remove_sorted cmp (find_min b) (elements b)
        → elements (at_key a b d h u).0 ≡ elements a ++ elements b
    unfolding elements at_key
    delete-here a b q d h u e = elim (Bool-cases (is_null a)) [
      | inl na ↦ simp (na, null_elements a na) refl
      | inr na ↦ elim (Bool-cases (is_null b)) [
        | inl nb ↦ simp (na, nb, null_elements b nb) (sym (append-nil (elements a)))
        | inr nb ↦
            let (rest, f) = find_min-elements b nb in
            let gone =
              ap (remove_sorted cmp (find_min b)) f
              ∙ (remove_sorted-at cmp (find_min b) (find_min b) rest).1
                  (order.cmp_refl (find_min b)) in
            simp (na, nb)
              (ap (λ xs. elements a ++ find_min b ∷ xs) (e ∙ gone)
                ∙ ap (λ xs. elements a ++ xs) (sym f))
      ]
    ]

    delete_rec-elements :
        (depth : ℕ) (t : TreeNode) (q : Ptr) (h : Heap)
        → IsSorted cmp (elements t)
        → levels t + depth ≤ 1001
        → elements (delete_rec cmp finalize depth t q h).0 ≡ remove_sorted cmp q (elements t)
    unfolding elements levels delete_rec remove_sorted
    delete_rec-elements depth null q h s l = refl
    delete_rec-elements depth (node a d b) q h s l =
        let (sa, sb, below) = IsSorted-parts cmp d (elements a) (elements b) s in
        let before = IsSorted-before cmp order q d (elements a) (elements b) s in
        let k : ltb max_tree_depth depth ≡ false = ground arith in
        elim (Ordering-cases (cmp q d)) [
          | inl e ↦ simp (delete_rec-lt depth a b q d h k e) (
              ap (λ xs. xs ++ d ∷ elements b)
                (delete_rec-elements (suc depth) a q h sa (omega arith))
              ∙ sym (remove_sorted-left cmp q d (elements a) (elements b) e))
          | inr (inl e) ↦
              let gone : remove_sorted cmp q (elements a ++ d ∷ elements b)
                  ≡ elements a ++ elements b =
                remove_sorted-right cmp q (elements a) (d ∷ elements b) (before (inr e))
                ∙ ap (λ xs. elements a ++ xs) ((remove_sorted-at cmp q d (elements b)).1 e) in
              let least = find_min b in
              let h' = release finalize d (retain least h) in
              simp (delete_rec-eq depth a b q d h k e) (
                delete-here a b q d h (delete_rec cmp finalize (suc depth) b least h')
                  (delete_rec-elements (suc depth) b least h' sb (omega arith))
                ∙ sym gone)
          | inr (inr e) ↦ simp (delete_rec-gt depth a b q d h k e) (
              ap (λ xs. elements a ++ d ∷ xs)
                (delete_rec-elements (suc depth) b q h sb (omega arith))
              ∙ ap (λ xs. elements a ++ xs) (sym ((remove_sorted-at cmp q d (elements b)).2 e))
              ∙ sym (remove_sorted-right cmp q (elements a) (d ∷ elements b) (before (inl e))))
        ]

    -- A removal from a search tree takes the value that is equal to the key out of the sequence, where there
    -- is one, and leaves all others in order.
    pub remove_refines :
        (root : TreeNode) (key : Ptr) (h : Heap)
        → IsSearchTree cmp root
        → elements (remove cmp finalize root key h).0 ≡ remove_sorted cmp key (elements root)
    unfolding remove IsSearchTree
    remove_refines root key h (s, l) = delete_rec-elements 0 root key h s (omega arith)

  levels-delete_rec :
      (depth : ℕ) (t : TreeNode) (q : Ptr) (h : Heap)
      → levels (delete_rec cmp finalize depth t q h).0 ≤ levels t
  unfolding delete_rec levels
  levels-delete_rec depth null q h = omega arith
  levels-delete_rec depth (node a d b) q h =
      let left = levels-delete_rec (suc depth) a q h in
      let right = levels-delete_rec (suc depth) b q h in
      let next =
        levels-delete_rec (suc depth) b (find_min b) (release finalize d (retain (find_min b) h)) in
      ground arith

  -- A removal keeps a search tree one.
  pub remove-IsSearchTree :
      (order : IsOrder cmp) (root : TreeNode) (key : Ptr) (h : Heap)
      → IsSearchTree cmp root
      → IsSearchTree cmp (remove cmp finalize root key h).0
  unfolding IsSearchTree remove
  remove-IsSearchTree order root key h (s, l) =
      let fewer = levels-delete_rec 0 root key h in
      (
        simp (remove_refines order root key h (s, l))
            (remove_sorted-IsSorted cmp order key (elements root) s),
        omega arith,
      )
