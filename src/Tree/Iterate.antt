-- ===== src/Tree/Iterate.antt =====
-- src/tree.c: the iterator and `foreach` against the sequence of a tree.
use libcore.Base.{
  ℕ, zero, suc, ◌+◌, ◌≤◌, Bool, true, false, List, [], ◌∷◌, ◌++◌, append-nil, append_assoc, ◌≡◌,
  refl, sym, ap, ◌∙◌,
}
use libcore.Base.{length, ◌↔◌, ◌≢◌, arith, ltb, none}
use libcore.Object.{Ptr}
use libcore.Tree.{
  TreeNode, null, node, max_tree_depth, foreach_rec, foreach, TreeIterator, new_iterator, has_next,
}
use libcore.Tree.{push, push_left, take_top, iter_next}
use libcore.Tree.Sorted.{elements}
use libcore.Tree.Height.{levels}

-- What the nodes of a stack still give, the top's right subtree before the node below.
pending : List TreeNode → List Ptr
pending [] = []
pending (null ∷ ns) = pending ns
pending (node l item r ∷ ns) = item ∷ elements r ++ pending ns

-- What an iterator still gives.
pub remaining : TreeIterator → List Ptr
remaining it = elements it.current ++ pending it.stack

-- The stack has nodes only.
unfoldable pub AllNodes : List TreeNode → Type 0
AllNodes [] = Unit
AllNodes (null ∷ ns) = ⊥
AllNodes (node l item r ∷ ns) = AllNodes ns

abbrev always : List TreeNode → Bool
always stack = true

push_left-pending :
    (t : TreeNode) (stack : List TreeNode)
    → AllNodes stack
    → AllNodes (push_left always t stack)
      × (pending (push_left always t stack) ≡ elements t ++ pending stack)
unfolding push_left push pending elements AllNodes
push_left-pending null stack a = (a, refl)
push_left-pending (node l d r) stack a =
    let (b, e) = push_left-pending l (node l d r ∷ stack) a in
    (b, e ∙ sym (append_assoc (elements l) (d ∷ elements r) (pending stack)))

-- What is taken from the top of a stack of nodes.
pub Next : List Ptr → Ptr × TreeIterator → Type 0
Next [] u = (u.0 ≡ none) × (remaining u.1 ≡ []) × AllNodes u.1.stack
Next (x ∷ xs) u = (u.0 ≡ x) × (remaining u.1 ≡ xs) × AllNodes u.1.stack

take_top-Next : (stack : List TreeNode) → AllNodes stack → Next (pending stack) (take_top stack)
unfolding AllNodes Next take_top pending remaining elements
take_top-Next [] a = (refl, refl, tt)
take_top-Next (null ∷ ns) a = absurd a
take_top-Next (node l d r ∷ ns) a = (refl, refl, a)

-- With memory for its stack, `iter_next` gives the first value that is left and leaves the others; at the
-- end it gives NULL.
pub iter_next-Next :
    (it : TreeIterator) → AllNodes it.stack → Next (remaining it) (iter_next always it)
unfolding iter_next remaining
iter_next-Next it a =
    let (b, e) = push_left-pending it.current it.stack a in
    simp e at (take_top-Next (push_left always it.current it.stack) b)

-- The values that `n` calls of `iter_next` give.
pub drain : ℕ → TreeIterator → List Ptr
drain zero it = []
drain (suc n) it = let (item, rest) = iter_next always it in item ∷ drain n rest

drain-remaining :
    (xs : List Ptr) (it : TreeIterator)
    → AllNodes it.stack
    → remaining it ≡ xs
    → drain (length xs) it ≡ xs
unfolding drain Next
drain-remaining [] it a e = refl
drain-remaining (x ∷ xs) it a e =
    let next : Next (x ∷ xs) (iter_next always it) = simp e at (iter_next-Next it a) in
    let (item, rest, nodes) = next in
    simp item (ap (λ ys. x ∷ ys) (drain-remaining xs (iter_next always it).1 nodes rest))

-- An iterator on a tree, with memory for its stack, gives the values of the tree from the least to the
-- greatest, in as many calls as there are.
pub drain-new_iterator :
    (root : TreeNode) → drain (length (elements root)) (new_iterator root) ≡ elements root
unfolding new_iterator remaining pending AllNodes
drain-new_iterator root =
    drain-remaining (elements root) (new_iterator root) tt (append-nil (elements root))

-- The iterator has a next value exactly if some are left.
pub has_next_iff :
    (it : TreeIterator) → AllNodes it.stack → (has_next it ≡ true) ↔ (remaining it ≢ [])
unfolding has_next remaining AllNodes pending elements
has_next_iff it a = from it.current it.stack a
  where
    append-cons_ne : (xs ys : List Ptr) (d : Ptr) → xs ++ d ∷ ys ≢ []
    append-cons_ne [] ys d e = cc
    append-cons_ne (x ∷ xs) ys d e = cc

    from :
        (t : TreeNode) (stack : List TreeNode)
        → AllNodes stack
        → (has_next (record { stack = stack; current = t }) ≡ true)
          ↔ (elements t ++ pending stack ≢ [])
    from null [] a = (λ e. absurd cc, λ n. absurd (n refl))
    from null (null ∷ ns) a = absurd a
    from null (node l d r ∷ ns) a = (λ e f. absurd cc, λ n. refl)
    from (node l d r) stack a = (
      λ e f.
          append-cons_ne (elements l) (elements r ++ pending stack) d
            (sym (append_assoc (elements l) (d ∷ elements r) (pending stack)) ∙ f),
      λ n. refl,
    )

module _ {ℓ} {S : Type ℓ} where
  -- A function on each value of a sequence, in order.
  pub act_all : (Ptr → S → S) → List Ptr → S → S
  act_all act [] s = s
  act_all act (x ∷ xs) s = act_all act xs (act x s)

  act_all-append :
      (act : Ptr → S → S) (xs ys : List Ptr) (s : S)
      → act_all act (xs ++ ys) s ≡ act_all act ys (act_all act xs s)
  unfolding act_all
  act_all-append act [] ys s = refl
  act_all-append act (x ∷ xs) ys s = act_all-append act xs ys (act x s)

  foreach_rec-node :
      (act : Ptr → S → S) (depth : ℕ) (l r : TreeNode) (d : Ptr) (s : S)
      → ltb max_tree_depth depth ≡ false
      → foreach_rec act depth (node l d r) s
        ≡ foreach_rec act (suc depth) r (act d (foreach_rec act (suc depth) l s))
  unfolding foreach_rec
  foreach_rec-node act depth l r d s h = ground arith

  foreach_rec-act_all :
      (act : Ptr → S → S) (depth : ℕ) (t : TreeNode) (s : S)
      → levels t + depth ≤ 1001
      → foreach_rec act depth t s ≡ act_all act (elements t) s
  unfolding foreach_rec act_all elements levels
  foreach_rec-act_all act depth null s h = refl
  foreach_rec-act_all act depth (node l d r) s h =
      let k : ltb max_tree_depth depth ≡ false = ground arith in
      let left = foreach_rec-act_all act (suc depth) l s (omega arith) in
      let right =
        foreach_rec-act_all act (suc depth) r (act d (act_all act (elements l) s)) (omega arith) in
      foreach_rec-node act depth l r d s k
      ∙ ap (λ x. foreach_rec act (suc depth) r (act d x)) left
      ∙ right
      ∙ sym (act_all-append act (elements l) (d ∷ elements r) s)

  -- `foreach` calls its function on the values of a tree of at most 1001 levels once each, from the least
  -- to the greatest.
  pub foreach-act_all :
      (act : Ptr → S → S) (root : TreeNode) (s : S)
      → levels root ≤ 1001
      → foreach root act s ≡ act_all act (elements root) s
  unfolding foreach
  foreach-act_all act root s h = foreach_rec-act_all act 0 root s (omega arith)
