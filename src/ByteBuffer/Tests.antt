-- ===== src/ByteBuffer/Tests.antt =====
-- The theorems on the byte buffer at concrete buffers.
use libcore.Base.{◌+◌, ◌≤◌, true, false, ◌≡◌, refl, some, [], ◌∷◌, length, arith}
use libcore.ByteBuffer.{
  ByteBuffer, ensure_capacity, write, write_ensured, write_int32, int32_bytes, put_bytes, pulled,
  compact, copy_to, grown_capacity,
}
use libcore.ByteBuffer.Capacity.{IsValid, unread}
use libcore.ByteBuffer.Refine.{Written, write_refines}

-- An array of 8 with 3 bytes left to read, in the way of a write of 4.
abbrev half : ByteBuffer
half = record {
  buf = 1 ∷ 2 ∷ 3 ∷ 4 ∷ 5 ∷ 6 ∷ 0 ∷ 0 ∷ [];
  capacity = 8;
  read_pos = 3;
  write_pos = 6;
}

half-IsValid : IsValid half
unfolding IsValid
half-IsValid = (omega arith, omega arith, refl, omega arith)

unread-half : unread half ≡ 4 ∷ 5 ∷ 6 ∷ []
unfolding unread
unread-half = refl

-- The write compacts, and the array need not grow.
write-half : write false 0 half (7 ∷ 8 ∷ 9 ∷ 10 ∷ []) ≡ (
  true,
  record { buf = 4 ∷ 5 ∷ 6 ∷ 7 ∷ 8 ∷ 9 ∷ 10 ∷ 0 ∷ []; capacity = 8; read_pos = 0; write_pos = 7 },
)
unfolding write write_ensured ensure_capacity pulled compact put_bytes copy_to
write-half = refl

-- The array doubles.
grow_half : grown_capacity 26 8 33 ≡ some 64
unfolding grown_capacity
grow_half = refl

write_refines_example : Written half (7 ∷ 8 ∷ []) (write true 0 half (7 ∷ 8 ∷ []))
write_refines_example = write_refines true 0 half (7 ∷ 8 ∷ []) half-IsValid

few : length (unread half) + 2 ≤ 8388608
unfolding unread
few = omega arith

int32_written : (write_int32 true 0 half 0x01020304).0 ≡ true
unfolding write_int32 write_ensured ensure_capacity pulled compact int32_bytes put_bytes copy_to
int32_written = refl
