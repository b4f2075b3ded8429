-- ===== src/Asn1.antt =====
-- src/asn1.c: lengths and octet strings of ASN.1. What is read is the list of the bytes from `ptr` to
-- `end`, and a decoder gives its value and the bytes behind it, or `none` for NULL. `room` is the number
-- of bytes from `p` to `end`; an encoder gives its result and the bytes that it has put, which may be
-- some even if it fails.
pub mod RoundTrip
pub mod Strings
pub mod Unsigned
mod Tests
use libcore.Base.{ℕ, zero, suc, ◌+◌, ◌-◌, ◌*◌, ◌/◌, ◌%◌, ◌^◌, Bool, true, false, not, ◌||◌, ◌&&◌}
use libcore.Base.{
  Option, none, some, List, [], ◌∷◌, ◌++◌, ltb, leb, ◌==◌, if◌then◌else◌, length, get_or, take,
  drop,
}

abbrev pub size_max : ℕ
size_max = 2 ^ 64 - 1

abbrev pub octet_string : ℕ
octet_string = 4

-- The loop that takes `n` bytes of a length.
pub length_from : ℕ → ℕ → List ℕ → Option (ℕ × List ℕ)
length_from zero out_len bytes = some (out_len, bytes)
length_from (suc n) out_len [] = none
length_from (suc n) out_len (b ∷ bs) =
    let rest = length_from n (out_len * 256 + b) bs in
    if ltb (size_max / 256) out_len then none else rest

-- A length of fewer than 128 wants the short form.
pub long_only : Option (ℕ × List ℕ) → Option (ℕ × List ℕ)
long_only r = elim r [ none ↦ none | some (n, rest) ↦ if ltb n 128 then none else some (n, rest) ]

pub decode_length : List ℕ → Option (ℕ × List ℕ)
decode_length [] = none
decode_length (b ∷ bs) =
    let num = b % 128 in
    if ltb b 128
    then some (b, bs)
    else if b == 128
    then none
    else if num == 0 || ltb 8 num || ltb (length bs) num
    then none
    else if ltb 1 num && get_or bs 0 0 == 0
    then none
    else long_only (length_from num 0 bs)

-- The bytes of a length from the lowest on, of which a `size_t` has eight.
pub length_bytes : ℕ → ℕ → List ℕ
length_bytes zero temp = []
length_bytes (suc n) temp =
    let rest = length_bytes n (temp / 256) in if temp == 0 then [] else temp % 256 ∷ rest

-- The loop that puts them from the highest on, in front of what is behind.
pub put_reversed : List ℕ → List ℕ → List ℕ
put_reversed [] out = out
put_reversed (b ∷ bs) out = put_reversed bs (b ∷ out)

pub encode_length : ℕ → ℕ → Bool × List ℕ
encode_length room n =
    let len_bytes = length_bytes 8 n in
    let num_bytes = length len_bytes in
    if ltb n 128
    then if ltb room 1 then (false, []) else (true, n ∷ [])
    else if ltb room (1 + num_bytes)
    then (false, [])
    else (true, (128 + num_bytes) ∷ put_reversed len_bytes [])

-- `out_str` has room for `max_len` bytes; what is cut off there is skipped all the same.
pub decode_string : List ℕ → ℕ → Option (List ℕ × List ℕ)
decode_string [] max_len = none
decode_string (tag ∷ bs) max_len =
    if max_len == 0
    then none
    else if not (tag == octet_string)
    then none
    else elim (decode_length bs) [
      | none ↦ none
      | some (n, rest) ↦
          if ltb (length rest) n
          then none
          else some (take (if ltb n (max_len - 1) then n else max_len - 1) rest, drop n rest)
    ]

pub encode_string : ℕ → List ℕ → Bool × List ℕ
encode_string room str =
    if ltb room 1
    then (false, [])
    else let n = length str in
      let (ok, head) = encode_length (room - 1) n in
      if not ok
      then (false, octet_string ∷ [])
      else if n == 0
      then (true, octet_string ∷ head)
      else if ltb (room - 1 - length head) n
      then (false, octet_string ∷ head)
      else (true, octet_string ∷ (head ++ str))
