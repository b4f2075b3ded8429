-- ===== src/ByteBuffer/Search.antt =====
-- src/bytebuffer.c: `indexOf` and `skip`, on the queue of unread bytes.
use libcore.Base.{
  ℕ, zero, suc, ◌+◌, ◌-◌, ◌%◌, ◌^◌, ◌≤◌, ◌<◌, Bool, true, false, ◌≡◌, refl, sym, ap, ◌∙◌, List, [],
  ◌∷◌, ◌++◌, arith,
}
use libcore.Base.{none, some, inl, inr, ltb, ◌==◌, if◌then◌else◌, Bool-cases}
use libcore.Base.{length, take, drop, length-append, drop_past}
use libcore.ByteBuffer.{ByteBuffer, moved_to, skip, index_of, index_from, size_max}
use libcore.ByteBuffer.Capacity.{IsValid, unread, length-unread}
use libcore.ByteBuffer.Reads.{moved_to-IsValid, unread-moved_to}

pub is_absent : ℕ → List ℕ → Bool
is_absent target [] = true
is_absent target (x ∷ xs) = let rest = is_absent target xs in if x == target then false else rest

index_from-take :
    (buf : List ℕ) (left offset target : ℕ)
    → index_from buf left offset target ≡ index_from (take left buf) left offset target
unfolding index_from
index_from-take buf zero offset target = refl
index_from-take [] (suc left) offset target = refl
index_from-take (d ∷ ds) (suc left) offset target =
    let ih = index_from-take ds left (offset + 1) target in ground arith

index_from-first :
    (pre post : List ℕ) (left offset target : ℕ)
    → is_absent target pre ≡ true
    → length pre < left
    → index_from (pre ++ (target ∷ post)) left offset target ≡ some (offset + length pre)
unfolding index_from is_absent
index_from-first [] post zero offset target h l = absurd (omega arith)
index_from-first [] post (suc left) offset target h l = ground arith
index_from-first (x ∷ pre) post zero offset target h l = absurd (omega arith)
index_from-first (x ∷ pre) post (suc left) offset target h l =
    let ih = index_from-first pre post left (offset + 1) target (ground arith) (omega arith) in
    ground arith

index_from-absent :
    (bytes : List ℕ) (left offset target : ℕ)
    → is_absent target bytes ≡ true
    → index_from bytes left offset target ≡ none
unfolding index_from is_absent
index_from-absent bytes zero offset target h = refl
index_from-absent [] (suc left) offset target h = refl
index_from-absent (x ∷ xs) (suc left) offset target h =
    let ih = index_from-absent xs left (offset + 1) target (ground arith) in ground arith

-- A byte is found at the number of unread bytes in front of its first occurrence.
pub index_of-first :
    (b : ByteBuffer) (target : ℕ) (pre post : List ℕ)
    → IsValid b
    → unread b ≡ pre ++ (target ∷ post)
    → is_absent target pre ≡ true
    → index_of b target ≡ some (length pre)
unfolding index_of unread
index_of-first b target pre post ok e h =
    let many : length (unread b) ≡ b.write_pos - b.read_pos = length-unread b ok in
    let size : length (unread b) ≡ length pre + suc (length post) =
      ap length e ∙ length-append pre (target ∷ post) in
    index_from-take (drop b.read_pos b.buf) (b.write_pos - b.read_pos) 0 target
    ∙ ap (λ u. index_from u (b.write_pos - b.read_pos) 0 target) e
    ∙ index_from-first pre post (b.write_pos - b.read_pos) 0 target h (omega arith)
    ∙ ap some {x = 0 + length pre} {y = length pre} (omega arith)

-- A byte that does not occur among the unread ones is not found.
pub index_of-absent :
    (b : ByteBuffer) (target : ℕ) → is_absent target (unread b) ≡ true → index_of b target ≡ none
unfolding index_of unread
index_of-absent b target h =
    index_from-take (drop b.read_pos b.buf) (b.write_pos - b.read_pos) 0 target
    ∙ index_from-absent (unread b) (b.write_pos - b.read_pos) 0 target h

moved_to-end :
    (b : ByteBuffer)
    → IsValid b
    → IsValid (moved_to b b.write_pos) × (unread (moved_to b b.write_pos) ≡ [])
unfolding IsValid moved_to unread
moved_to-end b ok = (
  grind arith,
  ap (λ n. take n (drop b.write_pos b.buf)) {x = b.write_pos - b.write_pos} {y = 0} (omega arith),
)

-- Skipping drops the first `len` unread bytes, or all of them where there are fewer, as long as the
-- sum with the read position is one that a `size_t` holds.
pub skip_refines :
    (b : ByteBuffer) (len : ℕ)
    → IsValid b
    → b.read_pos + len ≤ size_max
    → IsValid (skip b len) × (unread (skip b len) ≡ drop len (unread b))
unfolding skip
skip_refines b len ok l =
    let many : length (unread b) ≡ b.write_pos - b.read_pos = length-unread b ok in
    let exact : (b.read_pos + len) % 2 ^ 64 ≡ b.read_pos + len = omega arith in
    elim (Bool-cases (ltb b.write_pos (b.read_pos + len))) [
      | inl e ↦
          let at_end = moved_to-end b ok in
          rw (exact, e) (at_end.0, at_end.1 ∙ sym (drop_past len (unread b) (ground arith)))
      | inr e ↦ rw (exact, e) (moved_to-IsValid b len ok (ground arith), unread-moved_to b len ok)
    ]

-- Otherwise the sum wraps around: skipping the largest `size_t` takes one byte back that was read.
pub skip_wraps :
    (b : ByteBuffer)
    → 0 < b.read_pos
    → b.read_pos ≤ b.write_pos
    → b.write_pos ≤ size_max
    → skip b size_max ≡ moved_to b (b.read_pos - 1)
unfolding skip
skip_wraps b l m n =
    let back : (b.read_pos + size_max) % 2 ^ 64 ≡ b.read_pos - 1 = omega arith in
    let within : ltb b.write_pos (b.read_pos - 1) ≡ false = ground arith in rw (back, within) refl
