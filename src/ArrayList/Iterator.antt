-- ===== src/ArrayList/Iterator.antt =====
-- The iterator of an ArrayList: `hasNext`, `next`, and the release of the list when it is done.
use libcore.Base.{ℕ, zero, suc, ◌+◌, ◌≤◌, ◌≡◌, arith, Bool, some, none}
use libcore.Base.{
  List, [], ◌∷◌, false, ltb, if◌then◌else◌, drop, drop_past, drop-get_or, sym, length-take,
}
use libcore.Base.Int.{pos}
use native.Mathlib.Numerals.{add-one}
use libcore.Object.{Ptr, Heap, retain, release}
use libcore.ArrayList.{ArrayList, get_size, get}
use libcore.ArrayList.Invariant.{IsValid}
use libcore.ArrayList.Refine.{contents, get_refines}

-- `list` is the address of the list, which the iterator retains, and NULL once it is released.
pub record ArrayListIterator : Type 0 where
  pub list : Ptr
  pub current_index : ℕ

-- `impl_iterator` on the list at `address`, where the iterator's own memory is granted.
pub iterator : ℕ → Heap → ArrayListIterator × Heap
iterator address h = (record { list = some address; current_index = 0 }, retain (some address) h)

-- Both read the list `l` that the iterator's `list` points at.
has_next : ArrayList → ArrayListIterator → Bool
has_next l it = elim it.list [ none ↦ false | some a ↦ ltb it.current_index (get_size l) ]

pub next : ArrayList → ArrayListIterator → Ptr × ArrayListIterator
unfolding has_next
next l it =
    if has_next l it
    then (get l (pos it.current_index), record it { current_index = it.current_index + 1 })
    else (none, it)

iterator_finalize : (ℕ → Heap → Heap) → ArrayListIterator → Heap → ArrayListIterator × Heap
iterator_finalize finalize it h = (record it { list = none }, release finalize it.list h)

-- A client's loop, `while (hasNext) next`, over at most `fuel` items.
pub drain : ℕ → ArrayList → ArrayListIterator → List Ptr
unfolding next
drain zero l it = []
drain (suc fuel) l it =
    let (x, it') = next l it in
    let rest = x ∷ drain fuel l it' in if has_next l it then rest else []

drain-drop :
    (fuel i : ℕ) (a : ℕ) {l : ArrayList}
    → IsValid l
    → l.size ≤ i + fuel
    → drain fuel l (record { list = some a; current_index = i }) ≡ drop i (contents l)
unfolding drain has_next get_size
drain-drop zero i a {l} v h =
    sym (drop_past i (contents l) (omega (arith, length-take l.size l.items)))
drain-drop (suc fuel) i a {l} v h = ground (
  arith,
  drain-drop fuel (i + 1) a v,
  add-one i,
  length-take l.size l.items,
  get_refines (pos i) v,
  drop_past i (contents l),
  drop-get_or i (contents l) none,
)

-- A new iterator, read until it has no more, gives the items of the list in order; as many rounds
-- as the list has items are enough.
pub drain-contents :
    (fuel address : ℕ) (h : Heap) {l : ArrayList}
    → IsValid l
    → get_size l ≤ fuel
    → drain fuel l (iterator address h).0 ≡ contents l
unfolding iterator get_size
drain-contents fuel address h v enough = drain-drop fuel 0 address v (omega arith)
