-- ===== src/Object/Counting.antt =====
-- Reference counting: a release gives back what a retain took, and only the last release destroys.
use libcore.Base.{ℕ, ◌+◌, ◌-◌, ◌%◌, ◌^◌, ◌<◌, ◌≡◌, refl, arith, false}
use libcore.Base.{some, ◌==◌}
use libcore.Object.{Heap, update, object_init, retain, release, destroy}
use libcore.Base.{true, zero, suc, ap, ◌∙◌, ==_refl}
use mathlib.Core.Path.{fun_ext}
use native.Mathlib.Numerals.{add-one}

unchanged_count : (f : ℕ → ℕ) (a v w : ℕ) → w ≡ f a → update (update f a v) a w ≡ f
unchanged_count f a v w e = fun_ext λ b. ground arith

-- `n` holders take the object, or give it back.
pub retain_times : ℕ → ℕ → Heap → Heap
retain_times zero obj h = h
retain_times (suc n) obj h = retain_times n obj (retain (some obj) h)

count-object_init : (obj : ℕ) (h : Heap) → (object_init obj h).ref_count obj ≡ 1
unfolding object_init
count-object_init obj h = ground arith

module _ (finalize : ℕ → Heap → Heap) where
  -- A live object that is retained and then released leaves the heap as it was.
  pub release-retain :
      (obj : ℕ) (h : Heap)
      → 0 < h.ref_count obj
      → h.ref_count obj + 1 < 2 ^ 32
      → release finalize (some obj) (retain (some obj) h) ≡ h
  unfolding release retain
  release-retain obj h live room =
      let c = h.ref_count obj in
      let taken = (c + 1) % 2 ^ 32 in
      let once : (taken == 1) ≡ false = ground arith in
      let same : (taken + 2 ^ 32 - 1) % 2 ^ 32 ≡ c = ground arith in
      rw (==_refl obj, once)
        (ap (λ (f : ℕ → ℕ). record h { ref_count = f })
          (unchanged_count h.ref_count obj taken ((taken + 2 ^ 32 - 1) % 2 ^ 32) same))

  pub release_times : ℕ → ℕ → Heap → Heap
  release_times zero obj h = h
  release_times (suc n) obj h = release finalize (some obj) (release_times n obj h)

  count-retain :
      (obj : ℕ) (h : Heap)
      → h.ref_count obj + 1 < 2 ^ 32
      → (retain (some obj) h).ref_count obj ≡ h.ref_count obj + 1
  unfolding retain
  count-retain obj h room = ground arith

  release_times-retain_times :
      (n obj : ℕ) (h : Heap)
      → 0 < h.ref_count obj
      → h.ref_count obj + n < 2 ^ 32
      → release_times n obj (retain_times n obj h) ≡ h
  unfolding retain_times release_times
  release_times-retain_times zero obj h live room = refl
  release_times-retain_times (suc n) obj h live room =
      let one = count-retain obj h (omega arith) in
      ap (release finalize (some obj))
        (release_times-retain_times n obj (retain (some obj) h) (omega arith) (omega arith))
      ∙ release-retain obj h live (omega arith)

  -- The release of the only holder destroys, at a count of zero.
  pub release_last :
      (obj : ℕ) (h : Heap)
      → h.ref_count obj ≡ 1
      → release finalize (some obj) h
        ≡ destroy finalize obj (record h { ref_count = update h.ref_count obj 0 })
  unfolding release
  release_last obj h one =
      let empty : (h.ref_count obj + 2 ^ 32 - 1) % 2 ^ 32 ≡ 0 = omega arith in
      let last : (h.ref_count obj == 1) ≡ true = ground arith in rw (last, empty)

  release-object_init :
      (obj : ℕ) (h : Heap)
      → release finalize (some obj) (object_init obj h)
        ≡ destroy finalize obj (record h { ref_count = update h.ref_count obj 0 })
  unfolding release object_init
  release-object_init obj h = rw (==_refl obj) (
      ap (λ (f : ℕ → ℕ). destroy finalize obj (record h { ref_count = f }))
        (fun_ext λ b. ground arith))

  -- An object that is made, retained `n` times and released `n` times is as it was made; one more
  -- release, and no earlier one, runs its finalizer and frees it, at a count of zero.
  pub lifetime :
      (n obj : ℕ) (h : Heap)
      → n + 1 < 2 ^ 32
      → (release_times n obj (retain_times n obj (object_init obj h)) ≡ object_init obj h)
        × (release_times (n + 1) obj (retain_times n obj (object_init obj h))
            ≡ destroy finalize obj (record h { ref_count = update h.ref_count obj 0 }))
  unfolding release_times
  lifetime n obj h room =
      let one = count-object_init obj h in
      let kept =
        release_times-retain_times n obj (object_init obj h) (omega (arith, one))
          (omega (arith, one)) in
      (kept, rw add-one (ap (release finalize (some obj)) kept ∙ release-object_init obj h))
