-- ===== src/Tree/Insert.antt =====
-- src/tree.c: what an insertion does to the sequence and to the reference counts.
use Prim.Native.Nat.Ordering.{lt, eq, gt}
use libcore.Base.{
  ℕ, suc, ◌+◌, ◌<◌, ◌≤◌, Bool, true, false, List, [], ◌∷◌, ◌++◌, ◌≡◌, refl, sym, ap, ◌∙◌,
}
use libcore.Base.{◌⊎◌, inl, inr, arith, Bool-cases, ltb, if◌then◌else◌}
use libcore.Object.{Ptr, Heap, retain}
use libcore.Tree.{TreeNode, null, node, Compare, max_tree_depth, insert_rec, insert, create_node}
use libcore.Tree.Sorted.{
  IsOrder, elements, Ordering-cases, insert_sorted, All, IsSorted, insert_sorted-at,
}
use libcore.Tree.Sorted.{
  insert_sorted-left, insert_sorted-right, insert_sorted-IsSorted, IsSorted-before, IsSorted-parts,
}
use libcore.Tree.Height.{levels}

module _ (cmp : Compare) where
  -- Whether a sorted sequence has a value that is equal.
  has_equal : Ptr → List Ptr → Bool
  has_equal q [] = false
  has_equal q (x ∷ xs) = elim (cmp q x) [ lt ↦ false | eq ↦ true | gt ↦ has_equal q xs ]

  has_equal-left :
      (q d : Ptr) (xs ys : List Ptr) → cmp q d ≡ lt → has_equal q (xs ++ d ∷ ys) ≡ has_equal q xs
  unfolding has_equal
  has_equal-left q d [] ys h = ground arith
  has_equal-left q d (x ∷ xs) ys h = ground (arith, has_equal-left q d xs ys h)

  has_equal-right :
      (q : Ptr) (xs ys : List Ptr) → All cmp gt q xs → has_equal q (xs ++ ys) ≡ has_equal q ys
  unfolding has_equal All
  has_equal-right q [] ys a = refl
  has_equal-right q (x ∷ xs) ys (e, a) = ground (arith, has_equal-right q xs ys a)

  has_equal_step :
      (q d : Ptr) (ys : List Ptr) → cmp q d ≡ gt → has_equal q (d ∷ ys) ≡ has_equal q ys
  unfolding has_equal
  has_equal_step q d ys h = ground arith

  -- A value added to a sequence, and the object retained unless one that is equal is there.
  pub Inserted : Ptr → TreeNode → Heap → TreeNode × Heap → Type 0
  Inserted q t h u =
      (elements u.0 ≡ insert_sorted cmp q (elements t))
      × (u.1 ≡ (if has_equal q (elements t) then h else retain q h))

  -- A node of the search.
  module _ (malloc : Bool) (depth : ℕ) (l r : TreeNode) (q d : Ptr) (h : Heap) where
    insert_rec-deep :
        ltb max_tree_depth depth ≡ true
        → insert_rec cmp malloc depth (node l d r) q h ≡ (node l d r, h)
    unfolding insert_rec
    insert_rec-deep k = ground arith

    insert_rec-lt :
        ltb max_tree_depth depth ≡ false
        → cmp q d ≡ lt
        → insert_rec cmp malloc depth (node l d r) q h
          ≡ ((let (a, h') = insert_rec cmp malloc (suc depth) l q h in (node a d r, h')))
    unfolding insert_rec
    insert_rec-lt k e = ground arith

    insert_rec-gt :
        ltb max_tree_depth depth ≡ false
        → cmp q d ≡ gt
        → insert_rec cmp malloc depth (node l d r) q h
          ≡ ((let (b, h') = insert_rec cmp malloc (suc depth) r q h in (node l d b, h')))
    unfolding insert_rec
    insert_rec-gt k e = ground arith

    insert_rec-eq :
        ltb max_tree_depth depth ≡ false
        → cmp q d ≡ eq
        → insert_rec cmp malloc depth (node l d r) q h ≡ (node l d r, h)
    unfolding insert_rec
    insert_rec-eq k e = ground arith

  module _ (order : IsOrder cmp) where
    Inserted-left :
        (q d : Ptr) (l r : TreeNode) (h : Heap) (u : TreeNode × Heap)
        → cmp q d ≡ lt
        → Inserted q l h u
        → Inserted q (node l d r) h (node u.0 d r, u.1)
    unfolding Inserted elements
    Inserted-left q d l r h u c (e, k) = (
      ap (λ xs. xs ++ d ∷ elements r) e
          ∙ sym (insert_sorted-left cmp q d (elements l) (elements r) c),
      k
          ∙ ap (λ b. if b then h else retain q h)
              (sym (has_equal-left q d (elements l) (elements r) c)),
    )

    Inserted-right :
        (q d : Ptr) (l r : TreeNode) (h : Heap) (u : TreeNode × Heap)
        → cmp q d ≡ gt
        → All cmp gt q (elements l)
        → Inserted q r h u
        → Inserted q (node l d r) h (node l d u.0, u.1)
    unfolding Inserted elements
    Inserted-right q d l r h u c a (e, k) =
        let step = (insert_sorted-at cmp q d (elements r)).2 c in
        let found : has_equal q (d ∷ elements r) ≡ has_equal q (elements r) =
          has_equal_step q d (elements r) c in
        (
          ap (λ xs. elements l ++ d ∷ xs) e
              ∙ ap (λ xs. elements l ++ xs) (sym step)
              ∙ sym (insert_sorted-right cmp q (elements l) (d ∷ elements r) a),
          k
              ∙ ap (λ b. if b then h else retain q h)
                  (sym (has_equal-right q (elements l) (d ∷ elements r) a ∙ found)),
        )

    Inserted-here :
        (q d : Ptr) (l r : TreeNode) (h : Heap)
        → cmp q d ≡ eq
        → All cmp gt q (elements l)
        → Inserted q (node l d r) h (node l d r, h)
    unfolding Inserted elements has_equal
    Inserted-here q d l r h c a =
        let step = (insert_sorted-at cmp q d (elements r)).1 c in
        let found = has_equal-right q (elements l) (d ∷ elements r) a in
        (
          ap (λ xs. elements l ++ xs) (sym step)
              ∙ sym (insert_sorted-right cmp q (elements l) (d ∷ elements r) a),
          ground arith,
        )

    -- An insertion happens, or nothing does, which has a cause: no memory, or no room below.
    Outcome : Bool → ℕ → Ptr → TreeNode → Heap → TreeNode × Heap → Type 0
    Outcome malloc depth q t h u =
        Inserted q t h u
        ⊎ ((elements u.0 ≡ elements t)
            × (u.1 ≡ h)
            × ((malloc ≡ false) ⊎ (max_tree_depth < levels t + depth)))

    deeper :
        (malloc : Bool) (depth : ℕ) (l r : TreeNode) (d : Ptr)
        → (malloc ≡ false) ⊎ (max_tree_depth < levels l + suc depth)
        → ((malloc ≡ false) ⊎ (max_tree_depth < levels (node l d r) + depth))
          × ((malloc ≡ false) ⊎ (max_tree_depth < levels (node r d l) + depth))
    unfolding levels
    deeper malloc depth l r d (inl e) = (inl e, inl e)
    deeper malloc depth l r d (inr e) = (inr (omega arith), inr (omega arith))

    Outcome-left :
        (malloc : Bool) (depth : ℕ) (q d : Ptr) (l r : TreeNode) (h : Heap) (u : TreeNode × Heap)
        → cmp q d ≡ lt
        → Outcome malloc (suc depth) q l h u
        → Outcome malloc depth q (node l d r) h (node u.0 d r, u.1)
    unfolding Outcome elements
    Outcome-left malloc depth q d l r h u c (inl i) = inl (Inserted-left q d l r h u c i)
    Outcome-left malloc depth q d l r h u c (inr (e, k, why)) =
        inr (ap (λ xs. xs ++ d ∷ elements r) e, k, (deeper malloc depth l r d why).0)

    Outcome-right :
        (malloc : Bool) (depth : ℕ) (q d : Ptr) (l r : TreeNode) (h : Heap) (u : TreeNode × Heap)
        → cmp q d ≡ gt
        → All cmp gt q (elements l)
        → Outcome malloc (suc depth) q r h u
        → Outcome malloc depth q (node l d r) h (node l d u.0, u.1)
    unfolding Outcome elements
    Outcome-right malloc depth q d l r h u c a (inl i) = inl (Inserted-right q d l r h u c a i)
    Outcome-right malloc depth q d l r h u c a (inr (e, k, why)) =
        inr (ap (λ xs. elements l ++ d ∷ xs) e, k, (deeper malloc depth r l d why).1)

    insert_rec-null :
        (malloc : Bool) (depth : ℕ) (q : Ptr) (h : Heap)
        → Outcome malloc depth q null h (insert_rec cmp malloc depth null q h)
    unfolding insert_rec create_node Outcome Inserted elements insert_sorted has_equal levels
    insert_rec-null malloc depth q h = elim (Bool-cases (ltb max_tree_depth depth)) [
      | inl e ↦ simp e (inr (refl, refl, inr (ground arith)))
      | inr e ↦ elim (Bool-cases malloc) [
        | inl m ↦ simp (e, m) (inl (refl, refl))
        | inr m ↦ simp (e, m) (inr (refl, refl, inl refl))
      ]
    ]

    insert_rec-Outcome :
        (malloc : Bool) (depth : ℕ) (t : TreeNode) (q : Ptr) (h : Heap)
        → IsSorted cmp (elements t)
        → Outcome malloc depth q t h (insert_rec cmp malloc depth t q h)
    unfolding elements Outcome levels
    insert_rec-Outcome malloc depth null q h s = insert_rec-null malloc depth q h
    insert_rec-Outcome malloc depth (node a d b) q h s =
        let (sa, sb, below) = IsSorted-parts cmp d (elements a) (elements b) s in
        let before = IsSorted-before cmp order q d (elements a) (elements b) s in
        elim (Bool-cases (ltb max_tree_depth depth)) [
          | inl e ↦
              simp (insert_rec-deep malloc depth a b q d h e) (inr (refl, refl, inr (ground arith)))
          | inr k ↦ elim (Ordering-cases (cmp q d)) [
            | inl e ↦ simp (insert_rec-lt malloc depth a b q d h k e) (
                Outcome-left malloc depth q d a b h (insert_rec cmp malloc (suc depth) a q h) e
                  (insert_rec-Outcome malloc (suc depth) a q h sa))
            | inr (inl e) ↦
                simp (insert_rec-eq malloc depth a b q d h k e)
                  (inl (Inserted-here q d a b h e (before (inr e))))
            | inr (inr e) ↦ simp (insert_rec-gt malloc depth a b q d h k e) (
                Outcome-right malloc depth q d a b h (insert_rec cmp malloc (suc depth) b q h) e
                  (before (inl e)) (insert_rec-Outcome malloc (suc depth) b q h sb))
          ]
        ]

    -- An insertion into a search tree of at most 1000 levels, where there is memory, puts the value in its
    -- place in the sequence and retains it, and does neither if one that is equal is there.
    pub insert_refines :
        (root : TreeNode) (q : Ptr) (h : Heap)
        → IsSorted cmp (elements root)
        → levels root ≤ max_tree_depth
        → Inserted q root h (insert cmp true root q h)
    unfolding insert Outcome
    insert_refines root q h s l = elim (insert_rec-Outcome true 0 root q h s) [
      | inl i ↦ i
      | inr o ↦ absurd (too_deep o.2)
    ]
      where
        too_deep : (true ≡ false) ⊎ (max_tree_depth < levels root + 0) → ⊥
        too_deep (inl e) = cc
        too_deep (inr e) = omega arith

levels-insert_rec :
    (cmp : Compare) (malloc : Bool) (depth : ℕ) (t : TreeNode) (q : Ptr) (h : Heap)
    → levels t + depth ≤ 1001
    → levels (insert_rec cmp malloc depth t q h).0 + depth ≤ 1001
unfolding insert_rec create_node levels
levels-insert_rec cmp malloc depth null q h l = ground arith
levels-insert_rec cmp malloc depth (node a d b) q h l =
    let left = levels-insert_rec cmp malloc (suc depth) a q h (omega arith) in
    let right = levels-insert_rec cmp malloc (suc depth) b q h (omega arith) in ground arith

-- The invariant of a tree: its data are in order, on at most 1001 levels.
unfoldable pub IsSearchTree : Compare → TreeNode → Type 0
IsSearchTree cmp t = IsSorted cmp (elements t) × (levels t ≤ 1001)

-- An insertion keeps a search tree one, with or without memory, and however deep it is.
pub insert-IsSearchTree :
    (cmp : Compare) (order : IsOrder cmp) (malloc : Bool) (root : TreeNode) (q : Ptr) (h : Heap)
    → IsSearchTree cmp root
    → IsSearchTree cmp (insert cmp malloc root q h).0
unfolding IsSearchTree insert Outcome Inserted
insert-IsSearchTree cmp order malloc root q h (s, l) =
    let levels_kept = levels-insert_rec cmp malloc 0 root q h (omega arith) in
    elim (insert_rec-Outcome cmp order malloc 0 root q h s) [
      | inl i ↦ (simp i.0 (insert_sorted-IsSorted cmp order q (elements root) s), omega arith)
      | inr o ↦ (simp o.0 s, omega arith)
    ]
