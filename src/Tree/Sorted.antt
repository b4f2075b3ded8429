-- ===== src/Tree/Sorted.antt =====
-- src/tree.c: the sequence that a tree stands for, and what the order of its data is.
use Prim.Native.Nat.{Ordering}
use Prim.Native.Nat.Ordering.{lt, eq, gt}
use libcore.Base.{arith, List, [], ◌∷◌, ◌++◌, ◌≡◌, refl, ◌⊎◌, inl, inr}
use libcore.Object.{Ptr}
use libcore.Tree.{TreeNode, null, node, Compare}

-- What `CompareFunc` is expected to be: the order of a total preorder.
pub record IsOrder (cmp : Compare) : Type 0 where
  pub cmp_refl : (a : Ptr) → cmp a a ≡ eq
  pub lt_of_gt : (a b : Ptr) → cmp a b ≡ gt → cmp b a ≡ lt
  pub gt_of_lt : (a b : Ptr) → cmp a b ≡ lt → cmp b a ≡ gt
  pub lt_trans : (a b c : Ptr) → cmp a b ≡ lt → cmp b c ≡ lt → cmp a c ≡ lt
  pub gt_of_eq : (q d x : Ptr) → cmp q d ≡ eq → cmp x d ≡ lt → cmp q x ≡ gt

-- From the least to the greatest.
unfoldable pub elements : TreeNode → List Ptr
elements null = []
elements (node l item r) = elements l ++ item ∷ elements r

pub Ordering-cases : (o : Ordering) → (o ≡ lt) ⊎ ((o ≡ eq) ⊎ (o ≡ gt))
Ordering-cases lt = inl refl
Ordering-cases eq = inr (inl refl)
Ordering-cases gt = inr (inr refl)

module _ (cmp : Compare) where
  -- A sequence with a value put in its place, unless one that is equal is there.
  unfoldable pub insert_sorted : Ptr → List Ptr → List Ptr
  insert_sorted q [] = q ∷ []
  insert_sorted q (x ∷ xs) = elim (cmp q x) [
    | lt ↦ q ∷ x ∷ xs
    | eq ↦ x ∷ xs
    | gt ↦ x ∷ insert_sorted q xs
  ]

  unfoldable pub remove_sorted : Ptr → List Ptr → List Ptr
  remove_sorted q [] = []
  remove_sorted q (x ∷ xs) = elim (cmp q x) [ lt ↦ x ∷ xs | eq ↦ xs | gt ↦ x ∷ remove_sorted q xs ]

  -- Every value of the sequence has this order to `q`.
  unfoldable pub All : Ordering → Ptr → List Ptr → Type 0
  All o q [] = Unit
  All o q (x ∷ xs) = (cmp q x ≡ o) × All o q xs

  unfoldable pub IsSorted : List Ptr → Type 0
  unfolding All
  IsSorted [] = Unit
  IsSorted (x ∷ xs) = All lt x xs × IsSorted xs

  pub insert_sorted-at :
      (q x : Ptr) (xs : List Ptr)
      → ((cmp q x ≡ lt) → insert_sorted q (x ∷ xs) ≡ q ∷ x ∷ xs)
        × ((cmp q x ≡ eq) → insert_sorted q (x ∷ xs) ≡ x ∷ xs)
        × ((cmp q x ≡ gt) → insert_sorted q (x ∷ xs) ≡ x ∷ insert_sorted q xs)
  unfolding insert_sorted
  insert_sorted-at q x xs =
      (λ e. rw (insert_sorted, e), λ e. rw (insert_sorted, e), λ e. rw (insert_sorted, e))

  pub remove_sorted-at :
      (q x : Ptr) (xs : List Ptr)
      → ((cmp q x ≡ lt) → remove_sorted q (x ∷ xs) ≡ x ∷ xs)
        × ((cmp q x ≡ eq) → remove_sorted q (x ∷ xs) ≡ xs)
        × ((cmp q x ≡ gt) → remove_sorted q (x ∷ xs) ≡ x ∷ remove_sorted q xs)
  unfolding remove_sorted
  remove_sorted-at q x xs =
      (λ e. rw (remove_sorted, e), λ e. rw (remove_sorted, e), λ e. rw (remove_sorted, e))

  -- A value below another goes to the part before it.
  pub insert_sorted-left :
      (q d : Ptr) (xs ys : List Ptr)
      → cmp q d ≡ lt
      → insert_sorted q (xs ++ d ∷ ys) ≡ insert_sorted q xs ++ d ∷ ys
  unfolding insert_sorted
  insert_sorted-left q d [] ys h = rw h
  insert_sorted-left q d (x ∷ xs) ys h = ground (arith, insert_sorted-left q d xs ys h)

  pub insert_sorted-right :
      (q : Ptr) (xs ys : List Ptr)
      → All gt q xs
      → insert_sorted q (xs ++ ys) ≡ xs ++ insert_sorted q ys
  unfolding insert_sorted All
  insert_sorted-right q [] ys a = refl
  insert_sorted-right q (x ∷ xs) ys (e, a) = rw (e, insert_sorted-right q xs ys a)

  pub remove_sorted-left :
      (q d : Ptr) (xs ys : List Ptr)
      → cmp q d ≡ lt
      → remove_sorted q (xs ++ d ∷ ys) ≡ remove_sorted q xs ++ d ∷ ys
  unfolding remove_sorted
  remove_sorted-left q d [] ys h = rw h
  remove_sorted-left q d (x ∷ xs) ys h = ground (arith, remove_sorted-left q d xs ys h)

  pub remove_sorted-right :
      (q : Ptr) (xs ys : List Ptr)
      → All gt q xs
      → remove_sorted q (xs ++ ys) ≡ xs ++ remove_sorted q ys
  unfolding remove_sorted All
  remove_sorted-right q [] ys a = refl
  remove_sorted-right q (x ∷ xs) ys (e, a) = rw (e, remove_sorted-right q xs ys a)

  All-left : (x : Ptr) (xs ys : List Ptr) → All lt x (xs ++ ys) → All lt x xs
  unfolding All
  All-left x [] ys a = tt
  All-left x (z ∷ xs) ys (e, a) = (e, All-left x xs ys a)

  All-middle : (x d : Ptr) (xs ys : List Ptr) → All lt x (xs ++ d ∷ ys) → cmp x d ≡ lt
  unfolding All
  All-middle x d [] ys a = a.0
  All-middle x d (z ∷ xs) ys a = All-middle x d xs ys a.1

  module _ (order : IsOrder cmp) where
    All-lt_trans : (q x : Ptr) (xs : List Ptr) → cmp q x ≡ lt → All lt x xs → All lt q xs
    unfolding All
    All-lt_trans q x [] h a = tt
    All-lt_trans q x (y ∷ ys) h (e, a) = (order.lt_trans q x y h e, All-lt_trans q x ys h a)

    All-insert_sorted :
        (x q : Ptr) (xs : List Ptr) → cmp x q ≡ lt → All lt x xs → All lt x (insert_sorted q xs)
    unfolding All insert_sorted
    All-insert_sorted x q [] h a = (h, tt)
    All-insert_sorted x q (y ∷ ys) h (e, a) = ground (arith, All-insert_sorted x q ys h)

    All-remove_sorted : (x q : Ptr) (xs : List Ptr) → All lt x xs → All lt x (remove_sorted q xs)
    unfolding All remove_sorted
    All-remove_sorted x q [] a = tt
    All-remove_sorted x q (y ∷ ys) (e, a) = ground (arith, All-remove_sorted x q ys)

    pub insert_sorted-IsSorted :
        (q : Ptr) (xs : List Ptr) → IsSorted xs → IsSorted (insert_sorted q xs)
    unfolding All IsSorted insert_sorted
    insert_sorted-IsSorted q [] s = (tt, tt)
    insert_sorted-IsSorted q (x ∷ xs) (a, s) = ground (
      arith,
      All-lt_trans q x xs,
      All-insert_sorted x q xs,
      order.lt_of_gt q x,
      insert_sorted-IsSorted q xs,
    )

    pub remove_sorted-IsSorted :
        (q : Ptr) (xs : List Ptr) → IsSorted xs → IsSorted (remove_sorted q xs)
    unfolding All IsSorted remove_sorted
    remove_sorted-IsSorted q [] s = tt
    remove_sorted-IsSorted q (x ∷ xs) (a, s) =
        ground (arith, All-remove_sorted x q xs, remove_sorted-IsSorted q xs)

    -- What stands before a value that `q` is not below, `q` is above.
    pub IsSorted-before :
        (q d : Ptr) (xs ys : List Ptr)
        → IsSorted (xs ++ d ∷ ys)
        → (cmp q d ≡ gt) ⊎ (cmp q d ≡ eq)
        → All gt q xs
    unfolding IsSorted All
    IsSorted-before q d [] ys s h = tt
    IsSorted-before q d (x ∷ xs) ys (a, s) h =
        let l = All-middle x d xs ys a in
        ground (
          arith,
          order.gt_of_eq q d x,
          order.gt_of_lt d q,
          order.lt_of_gt q d,
          order.lt_trans x d q,
          order.gt_of_lt x q,
          IsSorted-before q d xs ys s h,
        )

  -- The two parts of a sorted sequence.
  pub IsSorted-parts :
      (d : Ptr) (xs ys : List Ptr)
      → IsSorted (xs ++ d ∷ ys)
      → IsSorted xs × IsSorted ys × All lt d ys
  unfolding IsSorted All
  IsSorted-parts d [] ys (a, s) = (tt, s, a)
  IsSorted-parts d (x ∷ xs) ys (a, s) =
      let (sx, sy, ay) = IsSorted-parts d xs ys s in ((All-left x xs (d ∷ ys) a, sx), sy, ay)
