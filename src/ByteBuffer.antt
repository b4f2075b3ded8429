-- ===== src/ByteBuffer.antt =====
-- src/bytebuffer.c: a growable byte buffer with a read and a write position. `buf` is the field `data`, the list of
-- the bytes of the array, as many as `capacity`. No pointer is NULL. `allocated` says of a call whether
-- its `realloc` or `calloc` succeeds, and `fresh` are the bytes that `realloc` adds, whose values the
-- program does not set. A debug build also clears the bytes behind a compaction; this is the other.
pub mod Bytes
pub mod Capacity
pub mod Refine
pub mod Reads
pub mod Search
pub mod Slice
mod Tests
use libcore.Base.{
  ℕ, zero, suc, ◌+◌, ◌-◌, ◌*◌, ◌/◌, ◌%◌, ◌^◌, min, Bool, true, false, not, ◌&&◌, ◌||◌,
}
use libcore.Base.{Option, none, some, List, [], ◌∷◌, ◌++◌, ltb, leb, ◌==◌, if◌then◌else◌}
use libcore.Base.{length, get_or, take, drop, replicate}

abbrev pub bb_max_capacity : ℕ
bb_max_capacity = 1024 * 1024 * 16

abbrev pub size_max : ℕ
size_max = 2 ^ 64 - 1

pub record ByteBuffer : Type 0 where
  buf : List ℕ
  capacity : ℕ
  read_pos : ℕ
  write_pos : ℕ

-- `memcpy(data + pos, bytes, length of bytes)`.
pub copy_to : List ℕ → ℕ → List ℕ → List ℕ
copy_to buf pos bytes = take pos buf ++ (bytes ++ drop (pos + length bytes) buf)

pub compact : ByteBuffer → ByteBuffer
compact b =
    if b.read_pos == 0
    then b
    else let remaining = b.write_pos - b.read_pos in
      record {
        buf = copy_to b.buf 0 (take remaining (drop b.read_pos b.buf));
        capacity = b.capacity;
        read_pos = 0;
        write_pos = remaining;
      }

-- The doubling loop. `none` is its refusal, or fuel that ran out.
unfoldable pub grown_capacity : ℕ → ℕ → ℕ → Option ℕ
grown_capacity zero new_cap needed = none
grown_capacity (suc fuel) new_cap needed =
    let next = grown_capacity fuel (new_cap * 2) needed in
    if leb needed new_cap
    then some new_cap
    else if ltb (bb_max_capacity / 2) new_cap
    then none
    else next

-- The first step of `ensure_capacity`: the buffer is compacted where the array is full.
pub pulled : ByteBuffer → ℕ → ByteBuffer
pulled b len = if ltb b.capacity (b.write_pos + len) && ltb 0 b.read_pos then compact b else b

-- The buffer on the array that `realloc` gives.
pub larger : ℕ → ByteBuffer → ℕ → ByteBuffer
larger fresh p new_cap = record {
  buf = p.buf ++ replicate (new_cap - p.capacity) fresh;
  capacity = new_cap;
  read_pos = p.read_pos;
  write_pos = p.write_pos;
}

-- The larger array, where `p` needs one: `false` is -1.
pub grow : Bool → ℕ → ByteBuffer → ℕ → Bool × ByteBuffer
grow allocated fresh p needed =
    elim (grown_capacity 26 (if p.capacity == 0 then 1024 else p.capacity) needed) [
      | none ↦ (false, p)
      | some new_cap ↦ if not allocated then (false, p) else (true, larger fresh p new_cap)
    ]

pub ensure_capacity : Bool → ℕ → ByteBuffer → ℕ → Bool × ByteBuffer
ensure_capacity allocated fresh b len =
    if ltb (size_max - b.write_pos) len
    then (false, b)
    else let p = pulled b len in
      if leb (p.write_pos + len) p.capacity
      then (true, p)
      else grow allocated fresh p (p.write_pos + len)

-- `memcpy` to the write position, which moves behind the bytes.
pub put_bytes : ByteBuffer → List ℕ → ByteBuffer
put_bytes b bytes = record {
  buf = copy_to b.buf b.write_pos bytes;
  capacity = b.capacity;
  read_pos = b.read_pos;
  write_pos = b.write_pos + length bytes;
}

-- The shared shape of the writes: `false` is -1.
pub write_ensured : Bool → ℕ → ByteBuffer → List ℕ → Bool × ByteBuffer
write_ensured allocated fresh b bytes =
    let ensured = ensure_capacity allocated fresh b (length bytes) in
    if ensured.0 then (true, put_bytes (ensured.1) bytes) else (false, ensured.1)

pub write_byte : Bool → ℕ → ByteBuffer → ℕ → Bool × ByteBuffer
write_byte allocated fresh b byte = write_ensured allocated fresh b (byte ∷ [])

-- The bytes of `htonl(v)` in memory order, for `v` as an unsigned 32-bit word.
pub int32_bytes : ℕ → List ℕ
int32_bytes v = v / 2 ^ 24 % 256 ∷ v / 2 ^ 16 % 256 ∷ v / 2 ^ 8 % 256 ∷ v % 256 ∷ []

pub int32_of : List ℕ → ℕ
int32_of bytes =
    get_or bytes 0 0 * 2 ^ 24
    + get_or bytes 1 0 * 2 ^ 16
    + get_or bytes 2 0 * 2 ^ 8
    + get_or bytes 3 0

pub write_int32 : Bool → ℕ → ByteBuffer → ℕ → Bool × ByteBuffer
write_int32 allocated fresh b v = write_ensured allocated fresh b (int32_bytes v)

pub write : Bool → ℕ → ByteBuffer → List ℕ → Bool × ByteBuffer
write allocated fresh b bytes =
    if length bytes == 0 then (true, b) else write_ensured allocated fresh b bytes

pub moved_to : ByteBuffer → ℕ → ByteBuffer
moved_to b pos = record {
  buf = b.buf;
  capacity = b.capacity;
  read_pos = pos;
  write_pos = b.write_pos;
}

pub read_byte : ByteBuffer → Option ℕ × ByteBuffer
read_byte b =
    if leb b.write_pos b.read_pos
    then (none, b)
    else (some (get_or b.buf b.read_pos 0), moved_to b (b.read_pos + 1))

pub peek_int32 : ByteBuffer → Option ℕ
peek_int32 b =
    if ltb b.write_pos (b.read_pos + 4)
    then none
    else some (int32_of (take 4 (drop b.read_pos b.buf)))

pub read_int32 : ByteBuffer → Option ℕ × ByteBuffer
read_int32 b =
    if ltb b.write_pos (b.read_pos + 4)
    then (none, b)
    else (some (int32_of (take 4 (drop b.read_pos b.buf))), moved_to b (b.read_pos + 4))

pub remaining : ByteBuffer → ℕ
remaining b = b.write_pos - b.read_pos

pub writable_bytes : ByteBuffer → ℕ
writable_bytes b = b.capacity - b.write_pos

-- The bytes copied out, as many as are returned.
pub read : ByteBuffer → ℕ → List ℕ × ByteBuffer
read b len =
    if len == 0
    then ([], b)
    else let available = b.write_pos - b.read_pos in
      let n = if ltb available len then available else len in
      (take n (drop b.read_pos b.buf), moved_to b (b.read_pos + n))

-- `read_pos + len` wraps around in a `size_t`.
pub skip : ByteBuffer → ℕ → ByteBuffer
skip b len =
    let to = (b.read_pos + len) % 2 ^ 64 in
    moved_to b (if ltb b.write_pos to then b.write_pos else to)

-- The loop, on the number of bytes that are left; `none` is -1.
pub index_from : List ℕ → ℕ → ℕ → ℕ → Option ℕ
index_from buf zero offset target = none
index_from [] (suc left) offset target = none
index_from (d ∷ ds) (suc left) offset target =
    let rest = index_from ds left (offset + 1) target in if d == target then some offset else rest

pub index_of : ByteBuffer → ℕ → Option ℕ
index_of b target = index_from (drop b.read_pos b.buf) (b.write_pos - b.read_pos) 0 target

pub rewind : ByteBuffer → ByteBuffer
rewind b = moved_to b 0

-- `allocated` says that both allocations succeed; `none` is a failed one.
pub new_byte_buffer : Bool → ℕ → Option ByteBuffer
new_byte_buffer allocated capacity =
    let n = if capacity == 0 then 1024 else capacity in
    if not allocated
    then none
    else some (record { buf = replicate n 0; capacity = n; read_pos = 0; write_pos = 0 })

-- The result of `write` on the new buffer is not looked at.
pub read_slice : Bool → ByteBuffer → ℕ → Option ByteBuffer × ByteBuffer
read_slice allocated b len =
    let available = b.write_pos - b.read_pos in
    let n = if ltb available len then available else len in
    elim (new_byte_buffer allocated n) [
      | none ↦ (none, b)
      | some out ↦ (
        some ((write allocated 0 out (take n (drop b.read_pos b.buf))).1),
        moved_to b (b.read_pos + n),
      )
    ]
