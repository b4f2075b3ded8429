-- ===== src/HashMap/Chain.antt =====
-- Keys that compare equal, and one chain of nodes.
use libcore.Base.{ℕ, zero, suc, ◌+◌, ◌≤◌, ◌≡◌, refl, arith, Bool, true, false}
use libcore.Base.{Option, none, some, List, [], ◌∷◌, if◌then◌else◌, length, ==_refl}
use libcore.Object.{Ptr}
use libcore.HashMap.{Key, HashNode, same_prefix, same_key, find_node, set_value, unlink}

-- `strncmp(..) == 0` is an equivalence.
pub same_prefix_refl : (n : ℕ) (a : Key) → same_prefix n a a ≡ true
unfolding same_prefix
same_prefix_refl zero a = refl
same_prefix_refl (suc n) [] = refl
same_prefix_refl (suc n) (c ∷ a) = rw (==_refl c) (same_prefix_refl n a)

pub same_prefix_symm : (n : ℕ) (a b : Key) → same_prefix n a b ≡ same_prefix n b a
unfolding same_prefix
same_prefix_symm zero a b = refl
same_prefix_symm (suc n) [] [] = refl
same_prefix_symm (suc n) [] (d ∷ b) = refl
same_prefix_symm (suc n) (c ∷ a) [] = refl
same_prefix_symm (suc n) (c ∷ a) (d ∷ b) = ground (arith, same_prefix_symm n a b)

pub same_prefix_congr :
    (n : ℕ) (a b c : Key) → same_prefix n a b ≡ true → same_prefix n a c ≡ same_prefix n b c
unfolding same_prefix
same_prefix_congr zero a b c e = refl
same_prefix_congr (suc n) [] [] c e = refl
same_prefix_congr (suc n) [] (y ∷ b) c e = cc
same_prefix_congr (suc n) (x ∷ a) [] c e = cc
same_prefix_congr (suc n) (x ∷ a) (y ∷ b) [] e = refl
same_prefix_congr (suc n) (x ∷ a) (y ∷ b) (z ∷ c) e = ground (arith, same_prefix_congr n a b c)

-- Keys of at most `n` bytes compare equal only if they are equal.
pub eq_of_same_prefix :
    (n : ℕ) (a b : Key) → length a ≤ n → length b ≤ n → same_prefix n a b ≡ true → a ≡ b
unfolding same_prefix
eq_of_same_prefix zero [] [] ha hb e = refl
eq_of_same_prefix zero [] (y ∷ b) ha hb e = absurd (omega arith)
eq_of_same_prefix zero (x ∷ a) b ha hb e = absurd (omega arith)
eq_of_same_prefix (suc n) [] [] ha hb e = refl
eq_of_same_prefix (suc n) [] (y ∷ b) ha hb e = cc
eq_of_same_prefix (suc n) (x ∷ a) [] ha hb e = cc
eq_of_same_prefix (suc n) (x ∷ a) (y ∷ b) ha hb e = ground (arith, eq_of_same_prefix n a b)

abbrev pub to_nat : Bool → ℕ
to_nat true = 1
to_nat false = 0

-- How many nodes of a chain a key compares equal to.
unfoldable pub count : Key → List HashNode → ℕ
count q [] = 0
count q (node ∷ rest) = to_nat (same_key node.key q) + count q rest

unfoldable pub value_of : Option HashNode → Ptr
value_of none = none
value_of (some n) = n.value

pub count_none : (q : Key) (c : List HashNode) → find_node q c ≡ none → count q c ≡ 0
unfolding find_node count
count_none q [] e = refl
count_none q (n ∷ c) e = ground (arith, count_none q c)

pub find_none : (q : Key) (c : List HashNode) → count q c ≡ 0 → find_node q c ≡ none
unfolding find_node count
find_none q [] e = refl
find_none q (n ∷ c) e = ground (arith, find_none q c)

module _ (k q : Key) where
  pub count-same : (c : List HashNode) → same_key k q ≡ true → count k c ≡ count q c
  unfolding count
  count-same [] e = refl
  count-same (n ∷ c) e = ground (
    arith,
    count-same c,
    same_prefix_congr 128 k q n.key,
    same_prefix_symm 128 k n.key,
    same_prefix_symm 128 q n.key,
  )

  pub find-set_value :
      (v : Ptr) (c : List HashNode) (old : HashNode)
      → find_node k c ≡ some old
      → value_of (find_node q (set_value k v c))
        ≡ (if same_key k q then v else value_of (find_node q c))
  unfolding find_node set_value value_of
  find-set_value v [] old e = cc
  find-set_value v (n ∷ c) old e = ground (
    arith,
    find-set_value v c old,
    same_prefix_congr 128 k n.key q,
    same_prefix_congr 128 k q n.key,
    same_prefix_symm 128 k n.key,
    same_prefix_symm 128 q n.key,
  )

  pub count-set_value : (v : Ptr) (c : List HashNode) → count q (set_value k v c) ≡ count q c
  unfolding count set_value
  count-set_value v [] = refl
  count-set_value v (n ∷ c) = ground (arith, count-set_value v c)

  pub count-unlink : (c : List HashNode) → count q (unlink k c) ≤ count q c
  unfolding count unlink
  count-unlink [] = omega arith
  count-unlink (n ∷ c) = ground (arith, count-unlink c)

  pub find-unlink :
      (c : List HashNode)
      → count q c ≤ 1
      → value_of (find_node q (unlink k c))
        ≡ (if same_key k q then none else value_of (find_node q c))
  unfolding find_node unlink count value_of
  find-unlink [] h = ground arith
  find-unlink (n ∷ c) h = ground (
    arith,
    find-unlink c,
    find_none q c,
    same_prefix_congr 128 k q n.key,
    same_prefix_congr 128 k n.key q,
    same_prefix_symm 128 k n.key,
    same_prefix_symm 128 q n.key,
  )

pub length-set_value : (k : Key) (v : Ptr) (c : List HashNode) → length (set_value k v c) ≡ length c
unfolding set_value
length-set_value k v [] = refl
length-set_value k v (n ∷ c) = ground (arith, length-set_value k v c)

pub length-unlink :
    (k : Key) (c : List HashNode) (old : HashNode)
    → find_node k c ≡ some old
    → length (unlink k c) + 1 ≡ length c
unfolding find_node unlink
length-unlink k [] old e = cc
length-unlink k (n ∷ c) old e = ground (arith, length-unlink k c old)
