-- ===== src/ByteBuffer/Capacity.antt =====
-- src/bytebuffer.c, `ensure_capacity`: the doubling loop, compaction, and what they keep.
use libcore.Base.{
  ℕ, zero, suc, ◌+◌, ◌-◌, ◌*◌, ◌/◌, ◌≤◌, ◌<◌, Bool, false, ◌&&◌, ◌≡◌, refl, ap, ◌∙◌, List, arith,
}
use libcore.Base.{
  none, some, inl, inr, ◌⊎◌, ltb, leb, ◌==◌, if◌then◌else◌, Bool-cases, Option-cases,
}
use libcore.Base.{
  length, take, drop, replicate, length-append, length-replicate, length-take, length-drop,
  take-append_le, drop-append_le,
}
use libcore.ByteBuffer.{
  ByteBuffer, compact, grown_capacity, pulled, grow, larger, ensure_capacity, copy_to,
  bb_max_capacity, size_max,
}
use libcore.ByteBuffer.Bytes.{window-copy_to, length-copy_to}

unfoldable pub IsValid : ByteBuffer → Type 0
IsValid b =
    (b.read_pos ≤ b.write_pos)
    × (b.write_pos ≤ b.capacity)
    × (length b.buf ≡ b.capacity)
    × (b.capacity ≤ size_max)

-- The bytes that are written and not read.
unfoldable pub unread : ByteBuffer → List ℕ
unread b = take (b.write_pos - b.read_pos) (drop b.read_pos b.buf)

-- The loop stops at a capacity that is large enough, at most twice the need or as it was.
pub grown_capacity_lem :
    (fuel new_cap needed c : ℕ)
    → grown_capacity fuel new_cap needed ≡ some c
    → (needed ≤ c) × (new_cap ≤ c) × ((c ≤ bb_max_capacity) ⊎ (c ≡ new_cap))
unfolding grown_capacity
grown_capacity_lem zero new_cap needed c h = ground arith
grown_capacity_lem (suc fuel) new_cap needed c h = elim (Bool-cases (leb needed new_cap)) [
  | inl e ↦ ground arith
  | inr e ↦ let ih = grown_capacity_lem fuel (new_cap * 2) needed c in ground arith
]

doubled : ℕ → ℕ → ℕ
doubled zero c = c
doubled (suc n) c = doubled n (c * 2)

enough_fuel :
    (fuel new_cap needed : ℕ)
    → bb_max_capacity < doubled fuel new_cap
    → grown_capacity (suc fuel) new_cap needed ≡ none
    → bb_max_capacity / 2 < needed
unfolding grown_capacity doubled
enough_fuel zero new_cap needed l h = ground arith
enough_fuel (suc fuel) new_cap needed l h = elim (Bool-cases (leb needed new_cap)) [
  | inl e ↦ ground arith
  | inr e ↦ elim (Bool-cases (ltb (bb_max_capacity / 2) new_cap)) [
    | inl f ↦ ground arith
    | inr f ↦ enough_fuel fuel (new_cap * 2) needed l (ground arith)
  ]
]

-- The loop never runs out of its fuel: it refuses only a need beyond half of the limit.
pub grown_capacity-none :
    (new_cap needed : ℕ)
    → 0 < new_cap
    → grown_capacity 26 new_cap needed ≡ none
    → bb_max_capacity / 2 < needed
unfolding doubled
grown_capacity-none new_cap needed p h = enough_fuel 25 new_cap needed (omega arith) h

pub compact-IsValid : (b : ByteBuffer) → IsValid b → IsValid (compact b)
unfolding compact IsValid
compact-IsValid b ok = elim (Bool-cases (b.read_pos == 0)) [
  | inl e ↦ grind arith
  | inr e ↦
      let span : length (take (b.write_pos - b.read_pos) (drop b.read_pos b.buf))
          ≡ b.write_pos - b.read_pos =
        grind (arith, length-take, length-drop) in
      let whole =
        length-copy_to b.buf 0 (take (b.write_pos - b.read_pos) (drop b.read_pos b.buf))
          (omega arith) in
      grind arith
]

-- Compaction keeps the unread bytes.
pub unread-compact : (b : ByteBuffer) → IsValid b → unread (compact b) ≡ unread b
unfolding compact IsValid unread
unread-compact b ok = elim (Bool-cases (b.read_pos == 0)) [
  | inl e ↦ rw (e) refl
  | inr e ↦
      let bytes = take (b.write_pos - b.read_pos) (drop b.read_pos b.buf) in
      let span : length bytes ≡ b.write_pos - b.read_pos =
        grind (arith, length-take, length-drop) in
      let window = window-copy_to b.buf 0 0 bytes (omega arith) (omega arith) in
      rw (e) (
        ap (λ n. take n (copy_to b.buf 0 bytes)) {x = b.write_pos - b.read_pos - 0}
          {y = 0 + length bytes - 0} (omega arith)
        ∙ window)
]

pulled-IsValid : (b : ByteBuffer) (len : ℕ) → IsValid b → IsValid (pulled b len)
unfolding pulled
pulled-IsValid b len ok =
    elim (Bool-cases (ltb b.capacity (b.write_pos + len) && ltb 0 b.read_pos)) [
      | inl e ↦ rw (e) (compact-IsValid b ok)
      | inr e ↦ rw (e) ok
    ]

unread-pulled : (b : ByteBuffer) (len : ℕ) → IsValid b → unread (pulled b len) ≡ unread b
unfolding pulled
unread-pulled b len ok =
    elim (Bool-cases (ltb b.capacity (b.write_pos + len) && ltb 0 b.read_pos)) [
      | inl e ↦ rw (e) (unread-compact b ok)
      | inr e ↦ rw (e) refl
    ]

pub length-unread : (b : ByteBuffer) → IsValid b → length (unread b) ≡ b.write_pos - b.read_pos
unfolding IsValid unread
length-unread b ok = grind (arith, length-take, length-drop)

-- More room behind the last byte changes no window in front of it.
unread-larger :
    (fresh : ℕ) (p : ByteBuffer) (c : ℕ) → IsValid p → unread (larger fresh p c) ≡ unread p
unfolding IsValid unread larger
unread-larger fresh p c ok =
    let more = replicate (c - p.capacity) fresh in
    rw (drop-append_le p.read_pos p.buf more (omega arith)) (
      take-append_le (p.write_pos - p.read_pos) (drop p.read_pos p.buf) more
        (grind (arith, length-drop)))

larger-IsValid :
    (fresh : ℕ) (p : ByteBuffer) (c : ℕ)
    → IsValid p
    → p.capacity ≤ c
    → c ≤ size_max
    → IsValid (larger fresh p c)
unfolding IsValid larger
larger-IsValid fresh p c ok l m = grind (arith, length-append, length-replicate)

room-larger :
    (fresh : ℕ) (p : ByteBuffer) (c len : ℕ)
    → p.write_pos + len ≤ c
    → (larger fresh p c).write_pos + len ≤ (larger fresh p c).capacity
unfolding larger
room-larger fresh p c len l = l

-- What a call promises on every branch: the invariant, the unread bytes as they were, and room for
-- the bytes to come where it succeeds.
unfoldable pub Ensured : ByteBuffer → ℕ → Bool × ByteBuffer → Type 0
Ensured b len result =
    IsValid (result.1)
    × (unread (result.1) ≡ unread b)
    × ((result.0 ≡ false) ⊎ (result.1.write_pos + len ≤ result.1.capacity))

capacity_bound :
    (p : ByteBuffer) (c : ℕ)
    → IsValid p
    → ((c ≤ bb_max_capacity) ⊎ (c ≡ (if p.capacity == 0 then 1024 else p.capacity)))
    → c ≤ size_max
unfolding IsValid
capacity_bound p c ok h = ground arith

grow_lem :
    (allocated : Bool) (fresh : ℕ) (p : ByteBuffer) (len : ℕ)
    → IsValid p
    → Ensured p len (grow allocated fresh p (p.write_pos + len))
unfolding Ensured grow
grow_lem allocated fresh p len ok =
    let start = if p.capacity == 0 then 1024 else p.capacity in
    elim (Option-cases (grown_capacity 26 start (p.write_pos + len))) [
      | inl e ↦ rw (grow, e) (ok, refl, inl refl)
      | inr (c, e) ↦ elim (Bool-cases allocated) [
        | inl f ↦
            let large = grown_capacity_lem 26 start (p.write_pos + len) c e in
            let old : p.capacity ≤ c = ground arith in
            let bound : c ≤ size_max = capacity_bound p c ok (large.2) in
            rw (grow, e, f)
              (
                larger-IsValid fresh p c ok old bound,
                unread-larger fresh p c ok,
                inr (room-larger fresh p c len (large.0)),
              )
        | inr f ↦ rw (grow, e, f) (ok, refl, inl refl)
      ]
    ]

pub ensure_capacity_lem :
    (allocated : Bool) (fresh : ℕ) (b : ByteBuffer) (len : ℕ)
    → IsValid b
    → Ensured b len (ensure_capacity allocated fresh b len)
unfolding Ensured ensure_capacity
ensure_capacity_lem allocated fresh b len ok =
    let p = pulled b len in
    let p_ok = pulled-IsValid b len ok in
    let same = unread-pulled b len ok in
    elim (Bool-cases (ltb (size_max - b.write_pos) len)) [
      | inl e ↦ rw (e) (ok, refl, inl refl)
      | inr e ↦ elim (Bool-cases (leb (p.write_pos + len) p.capacity)) [
        | inl f ↦ rw (e, f) (p_ok, same, inr (ground arith))
        | inr f ↦
            let more = grow_lem allocated fresh p len p_ok in
            rw (e, f) (more.0, more.1 ∙ same, more.2)
      ]
    ]
