-- ===== src/Tree/Tests.antt =====
-- Tests of src/tree.c, and its theorems at concrete inputs.
use Prim.Native.Nat.{compare}
use Prim.Native.Nat.Ordering.{lt, eq, gt}
use libcore.Base.{ℕ, true, some, none, ◌∷◌, [], ◌≡◌, refl, arith}
use libcore.Tree.{new_iterator}
use libcore.Object.{Ptr, Heap, object_init}
use libcore.Tree.{TreeNode, null, node, Compare, insert, remove, clear}
use libcore.Tree.{insert_rec, create_node, delete_rec, find_min, least_from}
use libcore.Tree.Sorted.{IsOrder, elements, IsSorted, All, remove_sorted}
use libcore.Tree.Height.{levels}
use libcore.Tree.Insert.{Inserted, insert_refines, IsSearchTree, insert-IsSearchTree}
use libcore.Tree.Remove.{remove_refines}
use libcore.Tree.Iterate.{drain, drain-new_iterator}
use libcore.Tree.Visit.{GivesBack, IsCounted, holds, clear-GivesBack}

-- Pointers by address, NULL first.
abbrev by_address : Compare
by_address none none = eq
by_address none (some b) = lt
by_address (some a) none = gt
by_address (some a) (some b) = compare a b

by_address-IsOrder : IsOrder by_address
by_address-IsOrder = record {
  cmp_refl = refl_of;
  lt_of_gt = λ a b. ground arith;
  gt_of_lt = λ a b. ground arith;
  lt_trans = λ a b c. ground arith;
  gt_of_eq = λ a b c. ground arith;
}
  where
    refl_of : (a : Ptr) → by_address a a ≡ eq
    refl_of none = refl
    refl_of (some a) = ground arith

abbrev sample : TreeNode
sample = node (node null (some 2) null) (some 5) (node (node null (some 6) null) (some 8) null)

abbrev heap : Heap
heap = record { ref_count = λ o. 3; freed = [] }

-- The four objects of the sample, each of them new, with the tree as its holder.
abbrev created : Heap
created =
    object_init 8
      (object_init 6 (object_init 5 (object_init 2 (record { ref_count = λ o. 0; freed = [] }))))

abbrev keep : ℕ → Heap → Heap
keep obj h = h

sample-IsSearchTree : IsSearchTree by_address sample
unfolding IsSearchTree IsSorted All elements levels
sample-IsSearchTree =
    (((refl, (refl, (refl, tt))), ((refl, (refl, tt)), ((refl, tt), (tt, tt)))), omega arith)

insert_seven :
    elements (insert by_address true sample (some 7) heap).0
    ≡ some 2 ∷ some 5 ∷ some 6 ∷ some 7 ∷ some 8 ∷ []
unfolding insert insert_rec create_node elements
insert_seven = refl

remove_five :
    (remove by_address keep sample (some 5) heap).0
    ≡ node (node null (some 2) null) (some 6) (node null (some 8) null)
unfolding remove delete_rec find_min least_from
remove_five = refl

insert_refines_example :
    Inserted by_address (some 7) sample heap (insert by_address true sample (some 7) heap)
unfolding IsSearchTree levels
insert_refines_example =
    insert_refines by_address by_address-IsOrder sample (some 7) heap sample-IsSearchTree.0
      (omega arith)

insert-IsSearchTree_example :
    IsSearchTree by_address (insert by_address true sample (some 7) heap).0
insert-IsSearchTree_example =
    insert-IsSearchTree by_address by_address-IsOrder true sample (some 7) heap sample-IsSearchTree

remove_refines_example :
    elements (remove by_address keep sample (some 5) heap).0
    ≡ remove_sorted by_address (some 5) (elements sample)
remove_refines_example =
    remove_refines by_address keep by_address-IsOrder sample (some 5) heap sample-IsSearchTree

drain-new_iterator_example :
    drain 4 (record { stack = []; current = sample }) ≡ some 2 ∷ some 5 ∷ some 6 ∷ some 8 ∷ []
unfolding elements new_iterator
drain-new_iterator_example = drain-new_iterator sample

clear-GivesBack_example :
    GivesBack (λ o. holds o (elements sample)) created (clear keep sample created).1
unfolding IsCounted holds elements object_init
clear-GivesBack_example = clear-GivesBack keep (λ o h. refl) sample created (λ o p. ground arith)
