-- ===== src/ByteBuffer/Reads.antt =====
-- src/bytebuffer.c: the reads, on the queue of unread bytes.
use libcore.Base.{
  ℕ, zero, suc, ◌+◌, ◌-◌, ◌^◌, ◌≤◌, ◌<◌, Bool, true, false, ◌≡◌, refl, sym, ap, ◌∙◌, List, [], ◌∷◌,
  ◌++◌, arith,
}
use libcore.Base.{some, inl, inr, ltb, leb, ◌==◌, Bool-cases}
use libcore.Base.{
  length, take, drop, get_or, length-append, drop-get_or, drop_past, take_all, get_elem?, ltb-false,
  drop-append_exact, append-nil,
}
use libcore.ByteBuffer.{
  ByteBuffer, moved_to, read, read_byte, read_int32, peek_int32, int32_of, int32_bytes, write_int32,
  write_ensured,
}
use libcore.Base.Windows.{drop-take, drop-drop, take-take}
use libcore.ByteBuffer.Capacity.{IsValid, unread, length-unread}
use libcore.ByteBuffer.Refine.{Written, write_ensured_lem}

nil_of : (xs : List ℕ) → length xs ≡ 0 → xs ≡ []
nil_of [] e = refl
nil_of (x ∷ xs) e = absurd (omega arith)

pub moved_to-IsValid :
    (b : ByteBuffer) (n : ℕ)
    → IsValid b
    → n ≤ length (unread b)
    → IsValid (moved_to b (b.read_pos + n))
unfolding moved_to IsValid
moved_to-IsValid b n ok l = let many = length-unread b ok in grind arith

pub unread-moved_to :
    (b : ByteBuffer) (n : ℕ) → IsValid b → unread (moved_to b (b.read_pos + n)) ≡ drop n (unread b)
unfolding moved_to unread
unread-moved_to b n ok =
    rw
      (drop-take n (b.write_pos - b.read_pos) (drop b.read_pos b.buf), drop-drop n b.read_pos b.buf)
      (ap (λ k. take k (drop (b.read_pos + n) b.buf)) {x = b.write_pos - (b.read_pos + n)}
        {y = b.write_pos - b.read_pos - n} (omega arith))

pub take-unread :
    (b : ByteBuffer) (n : ℕ)
    → n ≤ b.write_pos - b.read_pos
    → take n (drop b.read_pos b.buf) ≡ take n (unread b)
unfolding unread
take-unread b n l = sym (take-take n (b.write_pos - b.read_pos) (drop b.read_pos b.buf) l)

-- What a read of up to `len` bytes promises.
pub ReadOut : ByteBuffer → ℕ → List ℕ × ByteBuffer → Type 0
ReadOut b len result =
    IsValid (result.1)
    × (result.0 ≡ take len (unread b))
    × (unread (result.1) ≡ drop len (unread b))

-- A read takes the first `len` unread bytes, or all of them where there are fewer, out of the buffer.
pub read_refines : (b : ByteBuffer) (len : ℕ) → IsValid b → ReadOut b len (read b len)
unfolding read ReadOut
read_refines b zero ok = (ok, refl, refl)
read_refines b (suc n) ok =
    let many = length-unread b ok in
    let available = b.write_pos - b.read_pos in
    let some_asked : (suc n == 0) ≡ false = ground arith in
    elim (Bool-cases (ltb available (suc n))) [
      | inl f ↦
          rw (some_asked, f)
            (
              moved_to-IsValid b available ok (omega arith),
              take-unread b available (omega arith)
                  ∙ take_all available (unread b) (omega arith)
                  ∙ sym (take_all (suc n) (unread b) (ground arith)),
              unread-moved_to b available ok
                  ∙ drop_past available (unread b) (omega arith)
                  ∙ sym (drop_past (suc n) (unread b) (ground arith)),
            )
      | inr f ↦
          rw (some_asked, f)
            (
              moved_to-IsValid b (suc n) ok (ground arith),
              take-unread b (suc n) (ground arith),
              unread-moved_to b (suc n) ok,
            )
    ]

unread_empty : (b : ByteBuffer) → IsValid b → b.write_pos ≤ b.read_pos → unread b ≡ []
unread_empty b ok l = let many = length-unread b ok in nil_of (unread b) (omega arith)

unread_head :
    (b : ByteBuffer)
    → IsValid b
    → b.read_pos < b.write_pos
    → get_elem? (unread b) 0 ≡ some (get_or b.buf b.read_pos 0)
unfolding unread IsValid
unread_head b ok l =
    let first : drop b.read_pos b.buf ≡ get_or b.buf b.read_pos 0 ∷ drop (suc b.read_pos) b.buf =
      drop-get_or b.read_pos b.buf 0 (omega arith) in
    let count : b.write_pos - b.read_pos ≡ suc (b.write_pos - b.read_pos - 1) = omega arith in
    rw (count, first) refl

-- A byte read is the first of the unread ones, and the others remain; with none, the read fails and
-- changes nothing.
pub read_byte_refines :
    (b : ByteBuffer)
    → IsValid b
    → ((read_byte b).0 ≡ get_elem? (unread b) 0)
      × (unread ((read_byte b).1) ≡ drop 1 (unread b))
      × IsValid ((read_byte b).1)
unfolding read_byte
read_byte_refines b ok =
    let many = length-unread b ok in
    elim (Bool-cases (leb b.write_pos b.read_pos)) [
      | inl e ↦
          let none_left = unread_empty b ok (ground arith) in
          rw (e) (rw (none_left) refl, rw (none_left) refl, ok)
      | inr e ↦ rw (e) (
        sym (unread_head b ok (ground arith)),
        unread-moved_to b 1 ok,
        moved_to-IsValid b 1 ok (ground arith),
      )
    ]

int32_of-int32_bytes :
    (v : ℕ) (rest : List ℕ) → v < 2 ^ 32 → int32_of (take 4 (int32_bytes v ++ rest)) ≡ v
unfolding int32_of int32_bytes
int32_of-int32_bytes v rest l = omega arith

drop-int32_bytes : (v : ℕ) (rest : List ℕ) → drop 4 (int32_bytes v ++ rest) ≡ rest
unfolding int32_bytes
drop-int32_bytes v rest = refl

length-int32_bytes : (v : ℕ) → length (int32_bytes v) ≡ 4
unfolding int32_bytes
length-int32_bytes v = refl

-- Where the unread bytes begin with those that `writeInt32` puts for a 32-bit word, the word is peeked
-- and read, and after the read the bytes behind it remain.
pub read_int32-int32_bytes :
    (b : ByteBuffer) (v : ℕ) (rest : List ℕ)
    → IsValid b
    → v < 2 ^ 32
    → unread b ≡ int32_bytes v ++ rest
    → (peek_int32 b ≡ some v) × ((read_int32 b).0 ≡ some v) × (unread ((read_int32 b).1) ≡ rest)
unfolding peek_int32 read_int32
read_int32-int32_bytes b v rest ok l e =
    let size : length (unread b) ≡ 4 + length rest =
      ap length e
      ∙ length-append (int32_bytes v) rest
      ∙ ap (λ n. n + length rest) (length-int32_bytes v) in
    let many : length (unread b) ≡ b.write_pos - b.read_pos = length-unread b ok in
    let four = take-unread b 4 (omega arith) in
    let value : int32_of (take 4 (drop b.read_pos b.buf)) ≡ v =
      ap int32_of (four ∙ ap (λ u. take 4 u) e) ∙ int32_of-int32_bytes v rest l in
    let after : unread (moved_to b (b.read_pos + 4)) ≡ rest =
      unread-moved_to b 4 ok ∙ ap (λ u. drop 4 u) e ∙ drop-int32_bytes v rest in
    let enough : ltb b.write_pos (b.read_pos + 4) ≡ false =
      ltb-false b.write_pos (b.read_pos + 4) (omega arith) in
    rw (enough) (ap some value, ap some value, after)

-- A word that `writeInt32` puts into a buffer comes out of `readInt32` when what was unread before it is
-- read, and nothing remains.
pub read_int32-write_int32 :
    (allocated : Bool) (fresh : ℕ) (b : ByteBuffer) (v : ℕ)
    → IsValid b
    → v < 2 ^ 32
    → (write_int32 allocated fresh b v).0 ≡ true
    → ((read_int32 ((read ((write_int32 allocated fresh b v).1) (length (unread b))).1)).0 ≡ some v)
      × (unread
            ((read_int32 ((read ((write_int32 allocated fresh b v).1) (length (unread b))).1)).1)
          ≡ [])
unfolding write_int32 Written ReadOut
read_int32-write_int32 allocated fresh b v ok l done =
    let w = write_ensured allocated fresh b (int32_bytes v) in
    let written : Written b (int32_bytes v) w =
      write_ensured_lem allocated fresh b (int32_bytes v) ok in
    let content : unread (w.1) ≡ unread b ++ int32_bytes v = ground arith in
    let before = read_refines (w.1) (length (unread b)) (written.0) in
    let left : unread ((read (w.1) (length (unread b))).1) ≡ int32_bytes v ++ [] =
      before.2
      ∙ ap (λ u. drop (length (unread b)) u) content
      ∙ drop-append_exact (length (unread b)) (unread b) (int32_bytes v) refl
      ∙ sym (append-nil (int32_bytes v)) in
    let got = read_int32-int32_bytes ((read (w.1) (length (unread b))).1) v [] (before.0) l left in
    (got.1, got.2)
