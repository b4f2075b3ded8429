-- ===== src/TextEncoder/Appends.antt =====
-- src/string_builder.c, src/bytebuffer.c: what fits the limit is held as it was appended.
use libcore.Base.{
  ℕ, zero, suc, ◌+◌, ◌*◌, ◌<◌, ◌≤◌, false, ◌/◌, some, List, [], ◌∷◌, ◌++◌, length, length-append,
  append-nil, append_assoc, ltb, leb, ◌≡◌, refl, sym, ap, ◌∙◌, arith, Bool-cases, inl, inr,
}
use libcore.ByteBuffer.{grown_capacity, bb_max_capacity}
use libcore.TextEncoder.{Output, append_char, append_all, new_output}

-- A capacity that becomes `most` when it is doubled so many times.
Doubles : ℕ → ℕ → ℕ → Type 0
Doubles most c zero = c ≡ most
Doubles most c (suc j) = Doubles most (c * 2) j

Doubles-le : (most c j : ℕ) → Doubles most c j → c ≤ most
unfolding Doubles
Doubles-le most c zero d = omega (arith, d)
Doubles-le most c (suc j) d = omega (arith, Doubles-le most (c * 2) j d)

stuck : (most c needed : ℕ) → Doubles most c 0 → needed ≤ most → leb needed c ≡ false → ⊥
unfolding Doubles
stuck most c needed d n e = ground arith

-- The doubling reaches every size up to the most.
grown_capacity-Doubles :
    (fuel most c j needed : ℕ)
    → Doubles most c j
    → j < fuel
    → most ≤ bb_max_capacity
    → needed ≤ most
    → (cap : ℕ) × (k : ℕ) × (grown_capacity fuel c needed ≡ some cap) × Doubles most cap k × (k ≤ j)
unfolding grown_capacity Doubles
grown_capacity-Doubles zero most c j needed d l m n = absurd (omega (arith, l))
grown_capacity-Doubles (suc fuel) most c zero needed d l m n = elim (Bool-cases (leb needed c)) [
  | inl e ↦ (c, zero, simp (grown_capacity, e) refl, d, omega arith)
  | inr e ↦ absurd (stuck most c needed d n e)
]
grown_capacity-Doubles (suc fuel) most c (suc j) needed d l m n =
    let low = Doubles-le most (c * 2) j d in
    let allowed : ltb (bb_max_capacity / 2) c ≡ false = ground arith in
    let (cap, k, made, d', l') =
      grown_capacity-Doubles fuel most (c * 2) j needed d (omega (arith, l)) m n in
    elim (Bool-cases (leb needed c)) [
      | inl e ↦ (c, suc j, simp (grown_capacity, e) refl, d, omega arith)
      | inr e ↦ (cap, k, simp (grown_capacity, e, allowed) made, d', omega (arith, l'))
    ]

-- What fits with its spare bytes is held whole.
append_all-fits :
    (spare most j : ℕ) (out : Output) (cs : List ℕ)
    → Doubles most out.capacity j
    → j < 26
    → most ≤ bb_max_capacity
    → length out.bytes + length cs + spare ≤ most
    → (append_all spare out cs).bytes ≡ out.bytes ++ cs
unfolding append_all append_char
append_all-fits spare most j out [] d l m n = sym (append-nil out.bytes)
append_all-fits spare most j out (c ∷ cs) d l m n =
    let (cap, k, made, d', l') =
      grown_capacity-Doubles 26 most out.capacity j (length out.bytes + 1 + spare) d l m
        (omega arith) in
    let out' : Output = record { bytes = out.bytes ++ c ∷ []; capacity = cap } in
    let here : append_char spare out c ≡ out' = simp (append_char, made) refl in
    let size = length-append out.bytes (c ∷ []) in
    ap (λ o. (append_all spare o cs).bytes) here
    ∙ append_all-fits spare most k out' cs d' (omega arith) m (omega arith)
    ∙ append_assoc out.bytes (c ∷ []) cs

-- A new `StringBuilder` of 32 bytes holds fewer than 16 MiB, and a new `ByteBuffer` of 30 bytes
-- 30 * 2^19 bytes.
pub string-fits :
    (cs : List ℕ) → length cs < bb_max_capacity → (append_all 1 (new_output 32) cs).bytes ≡ cs
unfolding Doubles
string-fits cs n =
    append_all-fits 1 bb_max_capacity 19 (new_output 32) cs refl (omega arith) (omega arith)
      (omega arith)

pub buffer-fits :
    (cs : List ℕ) → length cs ≤ 30 * 524288 → (append_all 0 (new_output 30) cs).bytes ≡ cs
unfolding Doubles
buffer-fits cs n =
    append_all-fits 0 (30 * 524288) 19 (new_output 30) cs refl (omega arith) (omega arith)
      (omega arith)
