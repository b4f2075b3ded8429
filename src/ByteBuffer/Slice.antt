-- ===== src/ByteBuffer/Slice.antt =====
-- src/bytebuffer.c: `new_ByteBuffer` and `readSlice`.
use libcore.Base.{
  ℕ, ◌+◌, ◌-◌, ◌≤◌, Bool, true, false, ◌≡◌, refl, sym, ap, ◌∙◌, List, [], ◌++◌, arith,
}
use libcore.Base.{Option, none, some, inl, inr, ltb, ◌==◌, if◌then◌else◌, Bool-cases}
use libcore.Base.{length, take, drop, replicate, length-take, drop_past, length-replicate, take_all}
use libcore.ByteBuffer.{
  ByteBuffer, moved_to, read_slice, new_byte_buffer, write, write_ensured, ensure_capacity, pulled,
  size_max,
}
use libcore.ByteBuffer.Capacity.{IsValid, unread, length-unread}
use libcore.ByteBuffer.Refine.{Written, write_refines}
use libcore.ByteBuffer.Reads.{moved_to-IsValid, unread-moved_to, take-unread}

-- The buffer that the constructor gives where memory is given.
empty : ℕ → ByteBuffer
empty n = record { buf = replicate n 0; capacity = n; read_pos = 0; write_pos = 0 }

empty-IsValid : (n : ℕ) → n ≤ size_max → IsValid (empty n)
unfolding IsValid empty
empty-IsValid n l = (omega arith, omega arith, length-replicate n 0, l)

unread-empty : (n : ℕ) → unread (empty n) ≡ []
unfolding unread empty
unread-empty n = refl

-- Bytes that fit into a new buffer are written without another array.
write-empty :
    (n : ℕ) (bytes : List ℕ)
    → n ≤ size_max
    → length bytes ≤ n
    → (write true 0 (empty n) bytes).0 ≡ true
unfolding write write_ensured ensure_capacity pulled empty
write-empty n bytes l m = ground arith

unread-write-empty :
    (n : ℕ) (bytes : List ℕ)
    → n ≤ size_max
    → length bytes ≤ n
    → IsValid ((write true 0 (empty n) bytes).1)
      × (unread ((write true 0 (empty n) bytes).1) ≡ bytes)
unfolding Written
unread-write-empty n bytes l m =
    let done = write-empty n bytes l m in
    let written = write_refines true 0 (empty n) bytes (empty-IsValid n l) in
    let content : unread ((write true 0 (empty n) bytes).1) ≡ unread (empty n) ++ bytes =
      ground arith in
    (written.0, content ∙ ap (λ u. u ++ bytes) (unread-empty n))

-- What a slice promises: a buffer of its own with the first `len` unread bytes, which are taken out of
-- the buffer it was read from; without memory, nothing changes.
pub Sliced : ByteBuffer → ℕ → Option ByteBuffer × ByteBuffer → Type 0
Sliced b len result = elim (result.0) [
  | none ↦ result.1 ≡ b
  | some out ↦
      IsValid out
      × (unread out ≡ take len (unread b))
      × IsValid (result.1)
      × (unread (result.1) ≡ drop len (unread b))
]

slot : ℕ → ℕ
slot n = if n == 0 then 1024 else n

fits_slot : (n : ℕ) (xs : List ℕ) → length (take n xs) ≤ slot n
unfolding slot
fits_slot n xs = let size = length-take n xs in ground arith

slot_bound : (b : ByteBuffer) (n : ℕ) → IsValid b → n ≤ b.write_pos - b.read_pos → slot n ≤ size_max
unfolding slot IsValid
slot_bound b n ok l = ground arith

-- `readSlice` of `n` bytes that are there.
slice_of :
    (b : ByteBuffer) (n : ℕ)
    → IsValid b
    → n ≤ length (unread b)
    → Sliced b n (
      some ((write true 0 (empty (slot n)) (take n (drop b.read_pos b.buf))).1),
      moved_to b (b.read_pos + n),
    )
unfolding Sliced
slice_of b n ok l =
    let many : length (unread b) ≡ b.write_pos - b.read_pos = length-unread b ok in
    let bytes = take n (drop b.read_pos b.buf) in
    let same : bytes ≡ take n (unread b) = take-unread b n (omega arith) in
    let fits : length bytes ≤ slot n = fits_slot n (drop b.read_pos b.buf) in
    let out = unread-write-empty (slot n) bytes (slot_bound b n ok (omega arith)) fits in
    (out.0, out.1 ∙ same, moved_to-IsValid b n ok l, unread-moved_to b n ok)

-- `readSlice` keeps both buffers valid, and hands the first `len` unread bytes over, or all of them
-- where there are fewer.
pub read_slice_refines :
    (allocated : Bool) (b : ByteBuffer) (len : ℕ)
    → IsValid b
    → Sliced b len (read_slice allocated b len)
unfolding read_slice new_byte_buffer empty slot Sliced
read_slice_refines false b len ok = refl
read_slice_refines true b len ok =
    let many : length (unread b) ≡ b.write_pos - b.read_pos = length-unread b ok in
    let available = b.write_pos - b.read_pos in
    elim (Bool-cases (ltb available len)) [
      | inl f ↦
          let s = slice_of b available ok (omega arith) in
          rw (f) (
            s.0,
            s.1
                ∙ take_all available (unread b) (omega arith)
                ∙ sym (take_all len (unread b) (ground arith)),
            s.2,
            s.3
                ∙ drop_past available (unread b) (omega arith)
                ∙ sym (drop_past len (unread b) (ground arith)),
          )
      | inr f ↦ rw (f) (slice_of b len ok (ground arith))
    ]
