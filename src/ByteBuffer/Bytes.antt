-- ===== src/ByteBuffer/Bytes.antt =====
-- src/bytebuffer.c: the window of an array between two positions, under copies into the array.
use libcore.Base.{ℕ, ◌+◌, ◌-◌, ◌≤◌, ◌≡◌, refl, ◌∙◌, List, ◌++◌, arith}
use libcore.Base.{
  length, take, drop, length-append, length-take, length-drop, take-append_exact, drop-append_le,
}
use libcore.Base.Windows.{drop-take, take-append_add}
use libcore.ByteBuffer.{copy_to}

pub length-copy_to :
    (buf : List ℕ) (pos : ℕ) (bytes : List ℕ)
    → pos + length bytes ≤ length buf
    → length (copy_to buf pos bytes) ≡ length buf
unfolding copy_to
length-copy_to buf pos bytes h = grind (arith, length-append, length-take, length-drop)

-- The window between `r` and the end of a copy to `w`.
pub window-copy_to :
    (buf : List ℕ) (r w : ℕ) (bytes : List ℕ)
    → r ≤ w
    → w + length bytes ≤ length buf
    → take (w + length bytes - r) (drop r (copy_to buf w bytes))
      ≡ take (w - r) (drop r buf) ++ bytes
unfolding copy_to
window-copy_to buf r w bytes h l =
    let kept = take w buf in
    let tail = drop (w + length bytes) buf in
    let long : length kept ≡ w = length-take w buf ∙ omega arith in
    let cut = drop-append_le r kept (bytes ++ tail) (omega arith) in
    let start : drop r kept ≡ take (w - r) (drop r buf) = drop-take r w buf in
    let span : length (drop r kept) ≡ w - r = length-drop r kept ∙ omega arith in
    let added = take-append_add (length bytes) (drop r kept) (bytes ++ tail) in
    let whole : take (length bytes) (bytes ++ tail) ≡ bytes =
      take-append_exact (length bytes) bytes tail refl in
    let count : w + length bytes - r ≡ length (drop r kept) + length bytes = omega arith in
    rw (count, cut, added, whole, start) refl
