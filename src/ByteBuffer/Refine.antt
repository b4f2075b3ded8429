-- ===== src/ByteBuffer/Refine.antt =====
-- src/bytebuffer.c: the buffer as a queue of bytes, its writes.
use libcore.Base.{ℕ, ◌+◌, ◌/◌, ◌≤◌, Bool, true, ◌≡◌, refl, sym, ap, ◌∙◌, List, [], ◌∷◌, ◌++◌, arith}
use libcore.Base.{inl, inr, ◌⊎◌, leb, ◌==◌, if◌then◌else◌, Bool-cases, Option-cases, append-nil}
use libcore.Base.{length}
use libcore.ByteBuffer.{
  ByteBuffer, ensure_capacity, put_bytes, write_ensured, write, grow, pulled, compact,
  bb_max_capacity, grown_capacity,
}
use libcore.ByteBuffer.Bytes.{window-copy_to, length-copy_to}
use libcore.ByteBuffer.Capacity.{
  IsValid, unread, Ensured, ensure_capacity_lem, grown_capacity-none, length-unread,
}

-- A write on every branch: done, with the bytes behind the unread ones, or refused, with none.
unfoldable pub Written : ByteBuffer → List ℕ → Bool × ByteBuffer → Type 0
Written b bytes result =
    IsValid (result.1) × (unread (result.1) ≡ (if result.0 then unread b ++ bytes else unread b))

put_bytes-IsValid :
    (b : ByteBuffer) (bytes : List ℕ)
    → IsValid b
    → b.write_pos + length bytes ≤ b.capacity
    → IsValid (put_bytes b bytes)
unfolding IsValid put_bytes
put_bytes-IsValid b bytes ok room =
    let same = length-copy_to b.buf b.write_pos bytes (omega arith) in grind arith

unread-put_bytes :
    (b : ByteBuffer) (bytes : List ℕ)
    → IsValid b
    → b.write_pos + length bytes ≤ b.capacity
    → unread (put_bytes b bytes) ≡ unread b ++ bytes
unfolding IsValid put_bytes unread
unread-put_bytes b bytes ok room =
    window-copy_to b.buf b.read_pos b.write_pos bytes (omega arith) (omega arith)

-- The same for the writes that do not look at the length.
pub write_ensured_lem :
    (allocated : Bool) (fresh : ℕ) (b : ByteBuffer) (bytes : List ℕ)
    → IsValid b
    → Written b bytes (write_ensured allocated fresh b bytes)
unfolding Written write_ensured Ensured
write_ensured_lem allocated fresh b bytes ok =
    let e = ensure_capacity allocated fresh b (length bytes) in
    let made : Ensured b (length bytes) e =
      ensure_capacity_lem allocated fresh b (length bytes) ok in
    elim (Bool-cases (e.0)) [
      | inl f ↦
          let room : e.1.write_pos + length bytes ≤ e.1.capacity = ground arith in
          rw (f) (
            put_bytes-IsValid (e.1) bytes (made.0) room,
            unread-put_bytes (e.1) bytes (made.0) room ∙ ap (λ u. u ++ bytes) (made.1),
          )
      | inr f ↦ rw (f) (made.0, made.1)
    ]

unchanged :
    (b : ByteBuffer) (bytes : List ℕ)
    → IsValid b
    → (length bytes == 0) ≡ true
    → Written b bytes (true, b)
unfolding Written
unchanged b [] ok e = (ok, sym (append-nil (unread b)))
unchanged b (x ∷ xs) ok e = ground arith

-- A write of any bytes keeps the buffer valid. It puts them behind the unread bytes, or it is refused
-- and the unread bytes are as before, though they may have been moved.
pub write_refines :
    (allocated : Bool) (fresh : ℕ) (b : ByteBuffer) (bytes : List ℕ)
    → IsValid b
    → Written b bytes (write allocated fresh b bytes)
unfolding write
write_refines allocated fresh b bytes ok = elim (Bool-cases (length bytes == 0)) [
  | inl e ↦ rw (write, e) (unchanged b bytes ok e)
  | inr e ↦ rw (write, e) (write_ensured_lem allocated fresh b bytes ok)
]

pulled_need :
    (b : ByteBuffer) (len : ℕ)
    → IsValid b
    → (leb ((pulled b len).write_pos + len) ((pulled b len).capacity) ≡ true)
      ⊎ ((pulled b len).write_pos ≡ length (unread b))
unfolding pulled compact
pulled_need b len ok = let many = length-unread b ok in ground arith

grow_succeeds :
    (fresh : ℕ) (p : ByteBuffer) (needed : ℕ)
    → needed ≤ bb_max_capacity / 2
    → (grow true fresh p needed).0 ≡ true
unfolding grow
grow_succeeds fresh p needed l =
    let start = if p.capacity == 0 then 1024 else p.capacity in
    elim (Option-cases (grown_capacity 26 start needed)) [
      | inl e ↦ let refused = grown_capacity-none start needed (ground arith) e in ground arith
      | inr (c, e) ↦ rw (grow, e) refl
    ]

-- A write is done wherever memory is given and the unread bytes and the new ones are together no
-- more than half of the limit, in a buffer of at most 16 MB and however much of it was read.
pub write_accepts :
    (fresh : ℕ) (b : ByteBuffer) (bytes : List ℕ)
    → IsValid b
    → b.capacity ≤ bb_max_capacity
    → length (unread b) + length bytes ≤ bb_max_capacity / 2
    → (write true fresh b bytes).0 ≡ true
unfolding write write_ensured ensure_capacity IsValid
write_accepts fresh b bytes ok small l =
    let p = pulled b (length bytes) in
    elim (pulled_need b (length bytes) ok) [
      | inl e ↦ ground arith
      | inr e ↦
          let grown = grow_succeeds fresh p (p.write_pos + length bytes) (omega arith) in
          ground arith
    ]
