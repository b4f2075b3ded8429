-- ===== src/Tree/Height.antt =====
-- src/tree.c: the height, and the limit on the depth.
use libcore.Base.{ℕ, suc, ◌-◌, ◌≤◌, min, max, ◌≡◌, inl, inr, arith, Bool-cases, ltb}
use libcore.Tree.{TreeNode, null, node, max_tree_depth, get_height_rec, get_height}

unfoldable pub levels : TreeNode → ℕ
levels null = 0
levels (node l item r) = suc (max (levels l) (levels r))

get_height_rec-levels :
    (depth : ℕ) (t : TreeNode)
    → depth ≤ 1001
    → get_height_rec depth t ≡ min (levels t) (1001 - depth)
unfolding get_height_rec levels
get_height_rec-levels depth null h = omega arith
get_height_rec-levels depth (node l item r) h = elim (Bool-cases (ltb max_tree_depth depth)) [
  | inl e ↦ ground arith
  | inr e ↦
      let a = get_height_rec-levels (suc depth) l (ground arith) in
      let b = get_height_rec-levels (suc depth) r (ground arith) in ground arith
]

-- The height is the number of levels, cut off at 1001.
pub get_height-levels : (t : TreeNode) → get_height t ≡ min (levels t) 1001
unfolding get_height
get_height-levels t = get_height_rec-levels 0 t (omega arith)
