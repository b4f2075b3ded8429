-- ===== src/Object.antt =====
-- include/object.h and src/object.c: objects with a reference count, and what RETAIN and RELEASE do.
-- An object is its address; a pointer may be NULL. A class's `finalize` and other methods are
-- reached through the object's type, so they are parameters.
mod Tests
pub mod Counting
use libcore.Base.{ℕ, ◌+◌, ◌-◌, ◌%◌, ◌^◌, ◌/◌, Bool, true, false, Option, none, some, List, [], ◌∷◌}
use libcore.Base.{◌==◌, if◌then◌else◌}
use Prim.Native.Nat.{bit_xor}

abbrev pub Ptr : Type 0
Ptr = Option ℕ

-- The counts are `atomic_int`s, held as 32-bit patterns. `freed` lists the objects given to `free`,
-- the last one first.
pub record Heap : Type 0 where
  pub ref_count : ℕ → ℕ
  pub freed : List ℕ

abbrev pub update : (ℕ → ℕ) → ℕ → ℕ → ℕ → ℕ
update f a v b = if b == a then v else f b

-- `Object_Init` on an object that is not NULL.
unfoldable pub object_init : ℕ → Heap → Heap
object_init obj h = record h { ref_count = update h.ref_count obj 1 }

unfoldable pub retain : Ptr → Heap → Heap
retain none h = h
retain (some obj) h = record h {
  ref_count = update h.ref_count obj ((h.ref_count obj + 1) % 2 ^ 32);
}

module _ (finalize : ℕ → Heap → Heap) where
  unfoldable pub destroy : ℕ → Heap → Heap
  destroy obj h = let h' = finalize obj h in record h' { freed = obj ∷ h'.freed }

  -- The count before the subtraction decides.
  unfoldable pub release : Ptr → Heap → Heap
  unfolding destroy
  release none h = h
  release (some obj) h =
      let old = h.ref_count obj in
      let h' : Heap = record h {
        ref_count = update h.ref_count obj ((old + 2 ^ 32 - 1) % 2 ^ 32);
      } in
      if old == 1 then destroy obj h' else h'

-- Two objects are equal if they are one, or if they have one class and its `equals` says so. The
-- class of an object, and the `equals` of a class where it has one, are parameters.
module _ (type_of : ℕ → Option ℕ) (equals_of : ℕ → Option (ℕ → ℕ → Bool)) where
  same_type : Option ℕ → Option ℕ → Bool
  same_type none none = true
  same_type (some c) (some d) = c == d
  same_type _ _ = false

  by_class : Option ℕ → ℕ → ℕ → Bool
  by_class none a b = false
  by_class (some c) a b = elim (equals_of c) [ none ↦ false | some eq ↦ eq a b ]

  pub equals : Ptr → Ptr → Bool
  unfolding same_type by_class
  equals none none = true
  equals none (some b) = false
  equals (some a) none = false
  equals (some a) (some b) =
      if a == b
      then true
      else if same_type (type_of a) (type_of b)
      then by_class (type_of a) a b
      else false

-- `(int)(addr ^ (addr >> 32))`, as the 32-bit pattern of the `int`.
pub address_hash : ℕ → ℕ
address_hash addr = bit_xor addr (addr / 2 ^ 32) % 2 ^ 32

-- `instanceOf`, whose class argument may be NULL as well.
instance_of : (ℕ → Option ℕ) → Ptr → Option ℕ → Bool
unfolding same_type
instance_of type_of none target = false
instance_of type_of (some a) none = false
instance_of type_of (some a) (some c) = elim (type_of a) [ none ↦ false | some d ↦ d == c ]
