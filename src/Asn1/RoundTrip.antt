-- ===== src/Asn1/RoundTrip.antt =====
-- src/asn1.c: what the encoders put, the decoders take.
use libcore.Base.{
  ℕ, zero, suc, ◌+◌, ◌*◌, ◌/◌, ◌%◌, ◌<◌, ◌≤◌, ◌≡◌, refl, sym, ap, ap₂, ◌∙◌, arith, true, false,
  ◌||◌, ◌&&◌, some, List, [], ◌∷◌, ◌++◌, ltb, ◌==◌, length, get_or, Bool-cases, inl, inr, ltb-false,
  lt→ltb,
}
use libcore.Asn1.{
  size_max, length_from, long_only, decode_length, length_bytes, put_reversed, encode_length,
}

-- How many numbers `n` bytes have.
abbrev values : ℕ → ℕ
values zero = 1
values (suc n) = 256 * values n

-- The loop of the decoder, run on what the two loops of the encoder put, gives the length back.
length_from-put_reversed :
    (n k temp : ℕ) (out : List ℕ)
    → temp < values n
    → temp ≤ size_max
    → length_from (length (length_bytes n temp) + k) 0 (put_reversed (length_bytes n temp) out)
      ≡ length_from k temp out
unfolding length_from length_bytes put_reversed
length_from-put_reversed zero k temp out h m =
    let none_left : temp ≡ 0 = omega arith in
    ap₂ (λ a b. length_from a b out) (omega arith) (sym none_left)
length_from-put_reversed (suc n) k temp out h m = elim (Bool-cases (temp == 0)) [
  | inl e ↦
      let none_left : temp ≡ 0 = ground arith in
      rw (e) (ap₂ (λ a b. length_from a b out) (omega arith) (sym none_left))
  | inr e ↦
      let ih =
        length_from-put_reversed n (suc k) (temp / 256) (temp % 256 ∷ out) (omega arith)
          (omega arith) in
      let fits : ltb (size_max / 256) (temp / 256) ≡ false =
        ltb-false (size_max / 256) (temp / 256) (omega arith) in
      let count : suc (length (length_bytes n (temp / 256))) + k
          ≡ length (length_bytes n (temp / 256)) + suc k =
        omega arith in
      let whole : temp / 256 * 256 + temp % 256 ≡ temp = omega arith in
      rw (e, count) (ih ∙ rw (fits) (ap (λ t. length_from k t out) whole))
]

length_bytes_zero : (n : ℕ) → length_bytes n 0 ≡ []
unfolding length_bytes
length_bytes_zero zero = refl
length_bytes_zero (suc n) = refl

first_not_zero :
    (n temp : ℕ) (out : List ℕ)
    → 0 < temp
    → temp < values n
    → 0 < get_or (put_reversed (length_bytes n temp) out) 0 0
unfolding length_bytes put_reversed
first_not_zero zero temp out h m = absurd (omega arith)
first_not_zero (suc n) temp out h m = elim (Bool-cases (temp / 256 == 0)) [
  | inl e ↦
      let small : temp / 256 ≡ 0 = ground arith in
      let some_byte : (temp == 0) ≡ false = ground arith in
      let low : 0 < temp % 256 = omega (arith, small) in
      rw (some_byte, small, length_bytes_zero n) low
  | inr e ↦
      let ih = first_not_zero n (temp / 256) (temp % 256 ∷ out) (ground arith) (omega arith) in
      let some_byte : (temp == 0) ≡ false = ground arith in rw (some_byte) ih
]

length-length_bytes : (n temp : ℕ) → length (length_bytes n temp) ≤ n
unfolding length_bytes
length-length_bytes zero temp = omega arith
length-length_bytes (suc n) temp = let ih = length-length_bytes n (temp / 256) in ground arith

length-put_reversed : (xs out : List ℕ) → length (put_reversed xs out) ≡ length xs + length out
unfolding put_reversed
length-put_reversed [] out = omega arith
length-put_reversed (x ∷ xs) out = omega (arith, length-put_reversed xs (x ∷ out))

put_reversed-append : (xs ys out : List ℕ) → put_reversed xs ys ++ out ≡ put_reversed xs (ys ++ out)
unfolding put_reversed
put_reversed-append [] ys out = refl
put_reversed-append (x ∷ xs) ys out = put_reversed-append xs (x ∷ ys) out

some_bytes : (n : ℕ) → 128 ≤ n → 1 ≤ length (length_bytes 8 n)
unfolding length_bytes
some_bytes n h = ground arith

nothing_left : (n : ℕ) (rest : List ℕ) → length_from 0 n rest ≡ some (n, rest)
unfolding length_from
nothing_left n rest = refl

-- The bytes of a length that has the long form.
decode_long :
    (n : ℕ) (rest : List ℕ)
    → 128 ≤ n
    → n ≤ size_max
    → decode_length ((128 + length (length_bytes 8 n)) ∷ put_reversed (length_bytes 8 n) rest)
      ≡ some (n, rest)
unfolding decode_length long_only
decode_long n rest h m =
    let num = length (length_bytes 8 n) in
    let most = length-length_bytes 8 n in
    let least = some_bytes n h in
    let size = length-put_reversed (length_bytes 8 n) rest in
    let same_num : (128 + num) % 128 ≡ num = omega arith in
    let not_short : ltb (128 + num) 128 ≡ false = ltb-false (128 + num) 128 (omega arith) in
    let not_open : (128 + num == 128) ≡ false = ground arith in
    let first = first_not_zero 8 n rest (omega arith) (omega arith) in
    let in_room : (num == 0 || ltb 8 num || ltb (length (put_reversed (length_bytes 8 n) rest)) num)
        ≡ false =
      ground arith in
    let minimal : (ltb 1 num && get_or (put_reversed (length_bytes 8 n) rest) 0 0 == 0) ≡ false =
      ground arith in
    let count : num + 0 ≡ num = omega arith in
    let taken : length_from num 0 (put_reversed (length_bytes 8 n) rest) ≡ some (n, rest) =
      ap (λ k. length_from k 0 (put_reversed (length_bytes 8 n) rest)) (sym count)
      ∙ length_from-put_reversed 8 0 n rest (omega arith) m
      ∙ nothing_left n rest in
    let long : ltb n 128 ≡ false = ltb-false n 128 h in
    rw (same_num, not_short, not_open, in_room, minimal, taken, long) refl

pub decode_short : (n : ℕ) (rest : List ℕ) → n < 128 → decode_length (n ∷ rest) ≡ some (n, rest)
unfolding decode_length
decode_short n rest h = let short = lt→ltb n 128 h in rw (short) refl

-- A length that the encoder puts in the room it has is the length that the decoder takes, whatever comes
-- behind, and the encoder puts no more bytes than there is room for.
pub decode_length-encode_length :
    (room n : ℕ) (rest : List ℕ)
    → n ≤ size_max
    → (encode_length room n).0 ≡ true
    → (decode_length ((encode_length room n).1 ++ rest) ≡ some (n, rest))
      × (length ((encode_length room n).1) ≤ room)
unfolding encode_length
decode_length-encode_length room n rest m ok = elim (Bool-cases (ltb n 128)) [
  | inl e ↦ elim (Bool-cases (ltb room 1)) [
    | inl f ↦ absurd (ground arith)
    | inr f ↦ simp (e, f) (decode_short n rest (ground arith), ground arith)
  ]
  | inr e ↦
      let bytes = length_bytes 8 n in
      elim (Bool-cases (ltb room (1 + length bytes))) [
        | inl f ↦ absurd (ground arith)
        | inr f ↦
            let size = length-put_reversed bytes [] in
            simp (e, f)
              (
                ap (λ bs. decode_length ((128 + length bytes) ∷ bs))
                      (put_reversed-append bytes [] rest)
                    ∙ decode_long n rest (ground arith) m,
                ground (arith, size),
              )
      ]
]
